-- ===== src/Structs.antt =====
-- The records of indexer-manager's `structs` package, with the fields that this repository uses.
-- A nil slice and an empty one are both `[]`; a nil map and an empty one are both the empty map.
use terra_worker.Prelude.{ℕ, String, Option, none, List, []}
use terra_worker.Prelude.Int.{ℤ}
use terra_worker.Go.Map.{GoMap}

-- structs.HeightRange
pub record HeightRange : Type 0 where
  pub start_height : ℕ
  pub end_height : ℕ
  pub network : String
  pub chain_id : String

-- structs.Block; the time is the text that it was parsed from
pub record Block : Type 0 where
  pub hash : String
  pub height : ℕ
  pub chain_id : String
  pub time : String
  pub number_of_transactions : ℕ

-- structs.TransactionAmount; `none` is a nil *big.Int, the exponent is the bit pattern of an int32
pub record TransactionAmount : Type 0 where
  pub text : String
  pub currency : String
  pub numeric : Option ℤ
  pub exp : ℕ

abbrev pub no_amount : TransactionAmount
no_amount = record { text = ""; currency = ""; numeric = none; exp = 0 }

-- structs.AccountDetails
pub record AccountDetails : Type 0 where
  pub name : String
  pub description : String
  pub contact : String
  pub website : String

-- structs.Account
pub record Account : Type 0 where
  pub id : String
  pub details : Option AccountDetails

-- structs.Account{ID: id}
abbrev pub account : String → Account
account id = record { id = id; details = none }

-- structs.EventTransfer
pub record EventTransfer : Type 0 where
  pub account : Account
  pub amounts : List TransactionAmount

-- structs.SubsetEvent without its field Sub
pub record SubsetFields : Type 0 where
  pub type : List String
  pub module_name : String
  pub sender : List EventTransfer
  pub recipient : List EventTransfer
  pub node : GoMap (List Account)
  pub amount : GoMap TransactionAmount
  pub transfers : GoMap (List EventTransfer)
  pub additional : GoMap (List String)
  -- structs.SubsetEventError, by its message
  pub error : Option String

-- structs.SubsetEvent{}
abbrev pub no_fields : SubsetFields
no_fields = record {
  type = [];
  module_name = "";
  sender = [];
  recipient = [];
  node = [];
  amount = [];
  transfers = [];
  additional = [];
  error = none;
}

-- structs.SubsetEvent, whose field Sub is a list of such
mutual
  pub data SubsetEvent : Type 0 where
    subset : SubsetFields → SubsetEvents → SubsetEvent

  pub data SubsetEvents : Type 0 where
    nil : SubsetEvents
    cons : SubsetEvent → SubsetEvents → SubsetEvents

-- structs.TransactionEvent
pub record TransactionEvent : Type 0 where
  pub id : String
  pub kind : String
  pub sub : List SubsetEvent
