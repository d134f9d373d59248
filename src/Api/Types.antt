-- ===== src/Api/Types.antt =====
-- api/types/types.go: the answers of the chain, as decoded.
pub mod Attributes
use terra_worker.Prelude.{ℕ, String, Bool, false, Option, List, []}
use terra_worker.Go.Map.{GoMap}

-- TxEventsAttributes
pub record TxEventsAttributes : Type 0 where
  pub module_name : String
  pub action : String
  pub amount : List String
  pub sender : List String
  pub validator : GoMap (List String)
  pub recipient : List String
  pub voter : List String
  pub feeder : List String
  pub completion_time : String
  pub others : GoMap (List String)

-- TxEvents; `none` is a nil pointer
pub record TxEvents : Type 0 where
  pub type : String
  pub attributes : Option TxEventsAttributes

-- The float64 of a message index: a whole number below 2^53, or any other value by its text.
pub data MsgIndex : Type 0 where
  whole : ℕ → MsgIndex
  other : String → MsgIndex

-- LogFormat; of its log the message is used
pub record LogFormat : Type 0 where
  pub msg_index : MsgIndex
  pub success : Bool
  pub log_message : String
  pub events : List TxEvents

-- LogFormat{}
abbrev pub no_log : LogFormat
no_log = record { msg_index = whole 0; success = false; log_message = ""; events = [] }
