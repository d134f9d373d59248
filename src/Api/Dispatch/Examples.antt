-- ===== src/Api/Dispatch/Examples.antt =====
-- Messages dispatched at concrete inputs, and the theorems applied to them.
use Prim.Native.String.{◌++◌ as append}
use terra_worker.Prelude.{◌≡◌, refl, false, none, [], ◌∷◌}
use terra_worker.Prelude.Int.{pos}
use terra_worker.Go.Outcome.{ok, err, wrap, unknown_message_type}
use terra_worker.Structs.{SubsetFields, SubsetEvent, SubsetEvents, subset, no_fields, account}
use terra_worker.Structs
use terra_worker.Api.Types.{no_log}
use terra_worker.External.{External}
use terra_worker.Mapper.Messages
use terra_worker.Mapper.Messages.{Msg, MsgBody, Address, msg, exec_authorized, unlisted}
use terra_worker.Mapper.Messages.Assertions.{as_aggregate_exchange_rate_vote, as_unjail}
use terra_worker.Mapper.Encoding.{asserted, checked, encode_val}
use terra_worker.Mapper.Oracle.{oracle_aggregate_exchange_rate_vote_to_sub}
use terra_worker.Mapper.Single.{slashing_unjail_to_sub}
use terra_worker.Go.Map.{put}
use terra_worker.Go.Text.{split}
use terra_worker.Api.Dispatch.{leaf, unknown, dispatch, get_sub_event, oracle_event, slashing_event}
use terra_worker.Api.Dispatch.Cases.{label_of, module_of}
use terra_worker.Api.Dispatch.Labels.{get_sub_event_label}
use terra_worker.Api.Dispatch.Exec.{
  none_left, one_more, append_msgs, to_events, exec_fields, get_sub_event_exec_all,
  get_sub_event_exec_stops,
}

abbrev plain : External
plain = record {
  convert_and_encode = λ prefix bytes. (append prefix "1qqq", none);
  bech32_prefix_acc_addr = "terra";
  bech32_prefix_val_addr = "terravaloper";
  undefined_number = λ s. pos 0;
  acc_address_empty = λ bytes. false;
  val_address_empty = λ bytes. false;
  acc_address_string = λ bytes. "terra1qqq";
}

abbrev aggregate_vote : MsgBody
aggregate_vote =
    Messages.aggregate_exchange_rate_vote (record {
      salt = "ab";
      exchange_rates = "1.5ukrw,2uusd";
      feeder = 1 ∷ [];
      validator = 2 ∷ [];
    })

abbrev vote_fields : SubsetFields
vote_fields = record no_fields {
  type = "aggregateexchangerateprevote" ∷ [];
  module_name = "oracle";
  node = ("validator", account "terravaloper1qqq" ∷ []) ∷ ("feeder", account "terra1qqq" ∷ []) ∷ [];
  additional = ("salt", "ab" ∷ []) ∷ ("exchangeRates", "1.5ukrw" ∷ "2uusd" ∷ []) ∷ [];
}

vote_maps :
    get_sub_event plain (msg "oracle" "aggregateexchangeratevote" aggregate_vote) no_log
    ≡ ok (subset vote_fields Structs.nil)
unfolding get_sub_event dispatch oracle_event leaf oracle_aggregate_exchange_rate_vote_to_sub
    as_aggregate_exchange_rate_vote asserted put split
vote_maps = refl

-- a vote is reported under the type of a prevote
get_sub_event_label_example :
    (vote_fields.type ≡ label_of "aggregateexchangeratevote" ∷ [])
    × (vote_fields.module_name ≡ module_of "oracle" "aggregateexchangeratevote")
get_sub_event_label_example =
    get_sub_event_label plain "oracle" "aggregateexchangeratevote" aggregate_vote no_log vote_fields
      Structs.nil vote_maps

abbrev unjail : Msg
unjail = msg "slashing" "unjail" (Messages.unjail (record { validator_addr = 7 ∷ [] }))

abbrev unjailed : SubsetEvent
unjailed =
    subset
      (record no_fields {
        type = "unjail" ∷ [];
        module_name = "slashing";
        node = ("validator", account "terravaloper1qqq" ∷ []) ∷ [];
      })
      Structs.nil

unjail_maps : get_sub_event plain unjail no_log ≡ ok unjailed
unfolding get_sub_event dispatch slashing_event leaf slashing_unjail_to_sub as_unjail asserted
    checked encode_val
unjail_maps = refl

abbrev foreign : Msg
foreign = msg "ibc" "transfer" unlisted

foreign_fails :
    get_sub_event plain foreign no_log
    ≡ err (wrap "problem with ibc - transfer" unknown_message_type)
unfolding get_sub_event dispatch unknown
foreign_fails = refl

get_sub_event_exec_all_example :
    get_sub_event plain
      (msg "msgauth" "exec_delegated"
        (exec_authorized (1 ∷ []) (append_msgs (unjail ∷ []) Messages.nil)))
      no_log
    ≡ ok (subset (exec_fields plain (1 ∷ [])) (to_events (unjailed ∷ [])))
get_sub_event_exec_all_example =
    get_sub_event_exec_all plain no_log (1 ∷ []) (unjail ∷ []) (unjailed ∷ [])
      (one_more unjail_maps none_left)

get_sub_event_exec_stops_example :
    get_sub_event plain
      (msg "msgauth" "exec_delegated" (
        exec_authorized
          (1 ∷ [])
          (append_msgs (unjail ∷ []) (Messages.cons foreign (Messages.cons unjail Messages.nil)))))
      no_log
    ≡ ok (subset (exec_fields plain (1 ∷ [])) (to_events (unjailed ∷ [])))
get_sub_event_exec_stops_example =
    get_sub_event_exec_stops plain no_log (1 ∷ []) (unjail ∷ []) (unjailed ∷ []) foreign
      (Messages.cons unjail Messages.nil) (wrap "problem with ibc - transfer" unknown_message_type)
      (one_more unjail_maps none_left) foreign_fails
