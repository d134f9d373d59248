-- ===== src/Api/Types/Attributes.antt =====
-- `UnmarshalJSON` of api/types/types.go: the attributes of an event and the logs, as decoded.
pub mod Cases
pub mod Collected
mod Examples
use terra_worker.Prelude.{
  String, Bool, Option, none, some, List, [], ◌∷◌, ◌++◌, str_eq, not, if◌then◌else◌,
}
use terra_worker.Go.Outcome.{Outcome, ok, err, panic, ◌>>=◌}
use terra_worker.Go.Map.{GoMap, get, put}
use terra_worker.Api.Types.{TxEventsAttributes, TxEvents, MsgIndex, LogFormat}

-- kvHolder
pub record KvHolder : Type 0 where
  pub key : String
  pub value : String

-- an object of the list, by the texts that it has under "key" and "value"
pub record Pair : Type 0 where
  pub key : Option String
  pub value : Option String

unfoldable pub or_kept : Option String → String → String
or_kept none kept = kept
or_kept (some s) kept = s

-- dec.Decode(kc): a field that the object does not have keeps the value it has
unfoldable pub decode_pair : KvHolder → Pair → KvHolder
unfolding or_kept
decode_pair kc p = record { key = or_kept p.key kc.key; value = or_kept p.value kc.value }

unfoldable pub or_empty : Option (List String) → List String
or_empty none = []
or_empty (some vs) = vs

-- m[k] = append(m[k], v), with the map and the slice made where they are missing
unfoldable pub append_at : GoMap (List String) → String → String → GoMap (List String)
unfolding or_empty
append_at m k v = put m k (or_empty (get m k) ++ v ∷ [])

-- the cases of the switch on the key
pub data Case : Type 0 where
  validators : Case
  senders : Case
  recipients : Case
  feeders : Case
  voters : Case
  modules : Case
  actions : Case
  completion_times : Case
  amounts : Case
  by_default : Case

abbrev pub cases : List (String × Case)
cases =
    ("validator", validators)
    ∷ ("destination_validator", validators)
    ∷ ("source_validator", validators)
    ∷ ("sender", senders)
    ∷ ("recipient", recipients)
    ∷ ("feeder", feeders)
    ∷ ("voter", voters)
    ∷ ("module", modules)
    ∷ ("action", actions)
    ∷ ("completion_time", completion_times)
    ∷ ("amount", amounts)
    ∷ []

unfoldable pub find_case : String → List (String × Case) → Case
find_case k [] = by_default
find_case k ((j, c) ∷ cs) = if str_eq k j then c else find_case k cs

-- the bodies of the cases
unfoldable pub take_case : TxEventsAttributes → Case → String → String → TxEventsAttributes
take_case lea validators k v = record lea { validator = append_at lea.validator k v }
take_case lea senders k v = record lea { sender = lea.sender ++ v ∷ [] }
take_case lea recipients k v = record lea { recipient = lea.recipient ++ v ∷ [] }
take_case lea feeders k v = record lea { feeder = lea.feeder ++ v ∷ [] }
take_case lea voters k v = record lea { voter = lea.voter ++ v ∷ [] }
take_case lea modules k v = record lea { module_name = v }
take_case lea actions k v = record lea { action = v }
take_case lea completion_times k v = record lea { completion_time = v }
take_case lea amounts k v = record lea { amount = lea.amount ++ v ∷ [] }
take_case lea by_default k v = record lea { others = append_at lea.others k v }

unfoldable pub take_pair : TxEventsAttributes → KvHolder → TxEventsAttributes
unfolding find_case take_case
take_pair lea kc = take_case lea (find_case kc.key cases) kc.key kc.value

-- What the decoder of encoding/json reads: the opening bracket, the objects of the list, each of
-- which may be malformed, and the closing bracket.
pub record Tokens : Type 0 where
  pub opening : Outcome {0} Unit
  pub pairs : List (Outcome Pair)
  pub closing : Outcome {0} Unit

-- the loop, with the holder that all rounds share
unfoldable pub read_pairs :
    TxEventsAttributes → KvHolder → List (Outcome Pair) → Outcome TxEventsAttributes
unfolding decode_pair
read_pairs lea kc [] = ok lea
read_pairs lea kc (o ∷ os) = do
  p ← o
  read_pairs (take_pair lea (decode_pair kc p)) (decode_pair kc p) os

unfoldable pub unmarshal_attributes : TxEventsAttributes → Tokens → Outcome TxEventsAttributes
unmarshal_attributes lea tokens = do
  _ ← tokens.opening
  read ← read_pairs lea (record { key = ""; value = "" }) tokens.pairs
  _ ← tokens.closing
  ok read

-- TxEventsAttributes{}
abbrev pub no_attributes : TxEventsAttributes
no_attributes = record {
  module_name = "";
  action = "";
  amount = [];
  sender = [];
  validator = [];
  recipient = [];
  voter = [];
  feeder = [];
  completion_time = "";
  others = [];
}

-- logFormat
pub record RawLogFormat : Type 0 where
  pub msg_index : MsgIndex
  pub success : Bool
  pub log : String
  pub events : List TxEvents

-- LogFormat's UnmarshalJSON on a value with nothing in it, by the decoded logFormat and the decoder
-- of the message in the text of its log
unfoldable pub unmarshal_log_format :
    (String → Outcome String) → Outcome RawLogFormat → Outcome LogFormat
unmarshal_log_format decode_message raw = do
  llf ← raw
  text ← (if str_eq llf.log "" then ok "" else decode_message llf.log)
  ok (record {
    msg_index = llf.msg_index;
    success = llf.success;
    log_message = text;
    events = llf.events;
  })
