-- ===== src/Api/Blocks.antt =====
-- api/block.go: the metadata of a range of blocks, and the map in which the answers are gathered.
pub mod Gathered
pub mod Order
mod Examples
use terra_worker.Prelude.{
  ℕ, String, Option, none, some, List, [], ◌∷◌, ◌++◌, ltb, ◌==◌, ◌||◌, str_eq, add64, not,
  if◌then◌else◌,
}
use terra_worker.Go.Outcome.{GoError, Outcome, ok, err, panic, message, ◌>>=◌}
use terra_worker.Go.Text.{parse_uint, format_uint}
use terra_worker.Structs.{HeightRange, Block}

-- BlocksMap; the map of blocks is the function that looks a height up
pub record BlocksMap : Type 0 where
  pub blocks : ℕ → Option Block
  pub num_txs : ℕ
  pub start_height : ℕ
  pub end_height : ℕ

-- &BlocksMap{Blocks: map[uint64]structs.Block{}}
abbrev pub no_blocks : BlocksMap
no_blocks = record { blocks = λ height. none; num_txs = 0; start_height = 0; end_height = 0 }

-- blocks[b.Height] = b
unfoldable pub with_block : (ℕ → Option Block) → Block → ℕ → Option Block
with_block blocks b height = if height == b.height then some b else blocks height

unfoldable pub lower : ℕ → ℕ → ℕ
lower start height = if start == 0 || ltb height start then height else start

unfoldable pub higher : ℕ → ℕ → ℕ
higher last height = if last == 0 || ltb last height then height else last

-- what one round of the decoders' loops does with a block
unfoldable pub add_block : BlocksMap → Block → BlocksMap
add_block m b = record {
  blocks = with_block m.blocks b;
  num_txs = add64 m.num_txs b.number_of_transactions;
  start_height = lower m.start_height b.height;
  end_height = higher m.end_height b.height;
}

unfoldable pub add_blocks : BlocksMap → List Block → BlocksMap
add_blocks m [] = m
add_blocks m (b ∷ bs) = add_blocks (add_block m b) bs

-- BlockHeader and BlockMeta of types.go, with the hash of BlockID
pub record BlockMeta : Type 0 where
  pub hash : String
  pub height : String
  pub chain_id : String
  pub time : String
  pub num_txs : String

-- BlockMetaV4 of typesV4.go, whose count of transactions stands beside the header
pub record BlockMetaV4 : Type 0 where
  pub hash : String
  pub header_height : String
  pub header_chain_id : String
  pub header_time : String
  pub num_txs : String

-- GetBlockchainResponse and GetBlockchainResponseV4, with the message of their errors
pub record Response {ℓ} (A : Type ℓ) : Type ℓ where
  pub error_message : String
  pub block_metas : List A

-- The errors of the parsers are dropped: the value beside them counts.
unfoldable pub block_of : BlockMeta → Block
block_of meta = record {
  hash = meta.hash;
  height = (parse_uint meta.height).0;
  chain_id = meta.chain_id;
  time = meta.time;
  number_of_transactions = (parse_uint meta.num_txs).0;
}

unfoldable pub block_of_v4 : BlockMetaV4 → Block
block_of_v4 meta = record {
  hash = meta.hash;
  height = (parse_uint meta.header_height).0;
  chain_id = meta.header_chain_id;
  time = meta.header_time;
  number_of_transactions = (parse_uint meta.num_txs).0;
}

unfoldable pub blocks_of {ℓ} : {A : Type ℓ} → (A → Block) → List A → List Block
blocks_of f [] = []
blocks_of f (a ∷ as_read) = f a ∷ blocks_of f as_read

-- the decoder's answer, which is a nil pointer for the text "null"
unfoldable pub gather {ℓ} :
    {A : Type ℓ} → (A → Block) → BlocksMap → Option (Response A) → Outcome BlocksMap
gather f m none = panic
gather f m (some r) =
    if not (str_eq r.error_message "")
    then err (message "error fetching block: ")
    else ok (add_blocks m (blocks_of f r.block_metas))

-- What the HTTP client answers: an error, or a status and a body.
pub data Answer : Type 0 where
  failed : GoError → Answer
  answered : ℕ → String → Answer

-- The node and the packages that it is reached through: http.NewRequest, the rate limiter, the HTTP
-- client on the query's parameters, and the JSON decoder on a body.
pub record Node : Type 0 where
  pub new_request : Outcome {0} Unit
  pub wait : Outcome {0} Unit
  pub blockchain : List (String × String) → Answer
  pub decode : String → Outcome (Option (Response BlockMeta))
  pub decode_v4 : String → Outcome (Option (Response BlockMetaV4))

unfoldable pub parameter : String → ℕ → List (String × String)
parameter name n = if ltb 0 n then (name, format_uint n) ∷ [] else []

unfoldable pub blockchain_query : HeightRange → ℕ → List (String × String)
unfolding parameter
blockchain_query params limit =
    parameter "minHeight" params.start_height
    ++ parameter "maxHeight" params.end_height
    ++ parameter "limit" limit

unfoldable pub decode_blocks_columbus3 : Node → String → BlocksMap → Outcome BlocksMap
decode_blocks_columbus3 node body m = do result ← node.decode body; gather block_of m result

unfoldable pub decode_blocks_columbus4 : Node → String → BlocksMap → Outcome BlocksMap
decode_blocks_columbus4 node body m = do result ← node.decode_v4 body; gather block_of_v4 m result

unfoldable pub read_blocks : Node → String → Answer → BlocksMap → Outcome BlocksMap
read_blocks node chain_id (failed e) m = err e
read_blocks node chain_id (answered status body) m =
    if not (status == 200)
    then err (message "Bad Response ")
    else if str_eq chain_id "columbus-4"
    then decode_blocks_columbus4 node body m
    else decode_blocks_columbus3 node body m

-- The map afterwards, or what is sent to `end` while the map is left as it was.
unfoldable pub get_blocks_meta : Node → HeightRange → ℕ → BlocksMap → Outcome BlocksMap
get_blocks_meta node params limit m = do
  _ ← node.new_request
  _ ← node.wait
  read_blocks node params.chain_id (node.blockchain (blockchain_query params limit)) m
