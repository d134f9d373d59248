-- ===== src/Client/Range/Samples.antt =====
-- A range of one block with one transaction, and the steps of its goroutines.
use Prim.Native.String.{◌++◌ as append}
use terra_worker.Prelude.{
  ℕ, false, Option, none, some, List, [], ◌∷◌, ◌≡◌, refl, str_eq, Bool-cases, inl, inr, arith,
}
use terra_worker.Prelude.Int.{pos}
use terra_worker.Go.Outcome.{ok}
use terra_worker.Go.Float.{ceil, divide, nearest, round_even, scale_up, float64, scale_down}
use terra_worker.Structs.{HeightRange, Block}
use terra_worker.Api.Blocks.{BlocksMap, BlockMetaV4, no_blocks, add_blocks, block_of_v4}
use terra_worker.External.{External}
use terra_worker.Api.Blocks.{answered}
use terra_worker.Api.Search.{ToGet, or_nothing, read_search, found_txs, search_tx_singular_height}
use terra_worker.Api.Events.{append_events, message_events, log_events, error_events}
use terra_worker.Api.Transactions.{
  TxResponse, StdTx, TransactionResp, Codec, converted, std_tx, raw_to_transaction, read_log,
  read_log_ch, log_error,
}
use terra_worker.Client.Stream.{OutResp}
use terra_worker.Client.Ranges.{block_response, to_be_done, block_pages, block_searches}
use terra_worker.Client.Pipeline.{
  loop_actions, block_actions, request, closed_to_get, returned, waiting, stopped, receiving,
  finished, Pipeline, start_pipeline, put_block, put_search, close_to_get, take, put_tx, all_put,
  stop, close_tx_in, receive, put_converted, finish, leave, Run, here, next,
}
use terra_worker.Client.Range.{transaction_response, convert_ch, RangeClient, search, convert}

abbrev pub plain : External
plain = record {
  convert_and_encode = λ prefix bytes. (append prefix "1qqq", none);
  bech32_prefix_acc_addr = "terra";
  bech32_prefix_val_addr = "terravaloper";
  undefined_number = λ s. pos 0;
  acc_address_empty = λ bytes. false;
  val_address_empty = λ bytes. false;
  acc_address_string = λ bytes. "terra1qqq";
}

-- each transaction is one without messages, and each log is empty
abbrev bare : StdTx
bare = record { memo = "hello"; msgs = []; fee = [] }

abbrev pub codec : Codec
codec = record {
  decode_tx = λ tx_data. (bare, none);
  decode_tx_again = λ left tx_data. (left, none);
  decode_log = λ log. ([], none);
}

abbrev pub tx_raw : TxResponse
tx_raw = record {
  hash = "AB";
  height = "7";
  log = "[]";
  gas_wanted = "20";
  gas_used = "10";
  tx_data = "AA==";
}

abbrev block : Block
block = record {
  hash = "CD";
  height = 7;
  chain_id = "columbus-4";
  time = "2020-10-03T18:00:00Z";
  number_of_transactions = 1;
}

abbrev pub meta : BlockMetaV4
meta = record {
  hash = "CD";
  header_height = "7";
  header_chain_id = "columbus-4";
  header_time = "2020-10-03T18:00:00Z";
  num_txs = "1";
}

-- every search finds the transaction
abbrev pub client : RangeClient
client = record {
  error_text = λ e. "failed";
  node = record {
    new_request = ok tt;
    wait = ok tt;
    blockchain = λ query. answered 200 "{}";
    decode = λ body. ok none;
    decode_v4 = λ body. ok (some (record { error_message = ""; block_metas = meta ∷ [] }));
  };
  search_node = record {
    new_request = ok tt;
    wait = ok tt;
    tx_search = λ query. answered 200 "{}";
    decode_search = λ body. ok (record { error_message = ""; txs = [] });
    decode = λ body. ok (record { error_message = ""; txs = tx_raw ∷ [] });
  };
  ext = plain;
  codec = codec;
  encode_block = λ b. "block";
  encode_transaction = λ tx. tx.hash;
}

abbrev pub entries : List (ℕ × Block)
entries = (7, block) ∷ []

abbrev pub made : (ℕ → Option Block) → TxResponse → TransactionResp
made blocks tx = converted codec tx blocks []

pub finds : (g : ToGet) → search client g ≡ ok (tx_raw ∷ [])
unfolding search or_nothing search_tx_singular_height read_search found_txs
finds g = refl

pub makes :
    (blocks : ℕ → Option Block) (tx : TxResponse)
    → convert_ch plain codec blocks tx ≡ ok (made blocks tx)
unfolding convert_ch raw_to_transaction std_tx read_log_ch read_log log_error append_events
    message_events log_events error_events
makes blocks tx = elim (Bool-cases (str_eq tx.log "")) [ inl e ↦ rw e refl | inr e ↦ rw e refl ]

abbrev pub blocks : ℕ → Option Block
blocks = (add_blocks no_blocks (block_of_v4 meta ∷ [])).blocks

abbrev first_page : ToGet
first_page = record { height = 7; page = 1; per_page = 100 }

abbrev pub responses : List OutResp
responses =
    record { type = "Block"; payload = "block" }
    ∷ record { type = "Transaction"; payload = "AB" }
    ∷ []

abbrev pub at_end : Pipeline
at_end = record {
  main = returned;
  to_get = [];
  workers = stopped ∷ stopped ∷ stopped ∷ stopped ∷ stopped ∷ [];
  tx_in = [];
  converter = finished;
  out = responses;
}

-- the state in which only the workers are left to stop
abbrev pub before_stops : Pipeline
before_stops = record at_end {
  main = closed_to_get;
  workers = waiting ∷ waiting ∷ waiting ∷ waiting ∷ waiting ∷ [];
  converter = receiving;
}

-- the second worker finds the transaction
pub Run-delivery :
    (blocks : ℕ → Option Block)
    → Run
        (search client)
        (convert client blocks)
        (start_pipeline (loop_actions client.encode_block entries))
        8
        before_stops
unfolding ceil divide nearest round_even scale_up float64 scale_down start_pipeline loop_actions
    block_actions block_searches to_be_done block_pages block_response search or_nothing
    search_tx_singular_height read_search found_txs convert transaction_response converted
Run-delivery blocks =
    next
      (next
        (next
          (next
            (next
              (next
                (next
                  (next here (
                    put_block (record { type = "Block"; payload = "block" })
                      (request first_page ∷ []) refl))
                  (put_search first_page [] refl (omega arith)))
                (take (waiting ∷ []) (waiting ∷ waiting ∷ waiting ∷ []) first_page [] (tx_raw ∷ [])
                  refl refl refl))
              (close_to_get refl))
            (put_tx (waiting ∷ []) (waiting ∷ waiting ∷ waiting ∷ []) tx_raw [] refl (omega arith)))
          (all_put (waiting ∷ []) (waiting ∷ waiting ∷ waiting ∷ []) refl))
        (receive tx_raw [] (transaction_response client.encode_transaction (made blocks tx_raw))
          refl refl (rw (makes blocks tx_raw) refl)))
      (put_converted (transaction_response client.encode_transaction (made blocks tx_raw)) refl)

pub Run-at_end :
    (blocks : ℕ → Option Block)
    → Run
        (search client)
        (convert client blocks)
        (start_pipeline (loop_actions client.encode_block entries))
        16
        at_end
Run-at_end blocks =
    next
      (next
        (next
          (next
            (next
              (next
                (next
                  (next (Run-delivery blocks)
                    (stop [] (waiting ∷ waiting ∷ waiting ∷ waiting ∷ []) refl refl refl))
                  (stop (stopped ∷ []) (waiting ∷ waiting ∷ waiting ∷ []) refl refl refl))
                (stop (stopped ∷ stopped ∷ []) (waiting ∷ waiting ∷ []) refl refl refl))
              (stop (stopped ∷ stopped ∷ stopped ∷ []) (waiting ∷ []) refl refl refl))
            (stop (stopped ∷ stopped ∷ stopped ∷ stopped ∷ []) [] refl refl refl))
          (close_tx_in refl (refl, (refl, (refl, (refl, (refl, tt)))))))
        (finish refl refl refl))
      (leave refl refl)

abbrev entry : Option Block → List (ℕ × Block)
entry none = []
entry (some b) = (7, b) ∷ []

abbrev pub walk : BlocksMap → List (ℕ × Block)
walk m = entry (m.blocks 7)

abbrev pub range : HeightRange
range = record { start_height = 7; end_height = 7; network = "terra"; chain_id = "columbus-4" }
