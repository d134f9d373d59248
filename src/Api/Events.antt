-- ===== src/Api/Events.antt =====
-- `findLog`, `eventFromLogs` and `appendEvents` of api/transaction.go: the events of a transaction.
pub mod FindLog
pub mod Counts
pub mod Ids
mod Examples
use terra_worker.Prelude.{
  ℕ, suc, String, Bool, true, false, Option, none, some, List, [], ◌∷◌, ◌++◌, map, leb, ◌==◌,
  str_eq, length, get_elem?, ◌||◌, if◌then◌else◌,
}
use terra_worker.Go.Outcome.{Outcome, ok, err, panic, ◌>>=◌}
use terra_worker.Go.Text.{format_uint}
use terra_worker.Structs.{SubsetFields, SubsetEvent, TransactionEvent, subset, no_fields}
use terra_worker.Structs
use terra_worker.Api.Types.{TxEvents, TxEventsAttributes, MsgIndex, LogFormat, whole, other, no_log}
use terra_worker.External.{External}
use terra_worker.Mapper.Messages.{Msg, msg}
use terra_worker.Mapper.Encoding.{bare_transfer}
use terra_worker.Api.Dispatch.{get_sub_event}

-- l.MsgIndex == float64(index), for an index below 2^53
unfoldable pub is_index : MsgIndex → ℕ → Bool
is_index (whole n) index = n == index
is_index (other text) index = false

-- strconv.FormatFloat(index, 'f', -1, 64)
unfoldable pub format_index : MsgIndex → String
format_index (whole n) = format_uint n
format_index (other text) = text

-- the loop of findLog
unfoldable pub search_log : List LogFormat → ℕ → LogFormat
unfolding is_index
search_log [] index = no_log
search_log (l ∷ ls) index = if is_index l.msg_index index then l else search_log ls index

-- lf[index], for a list that was found long enough
unfoldable pub log_at : Option LogFormat → List LogFormat → ℕ → LogFormat
unfolding is_index search_log
log_at none lf index = no_log
log_at (some l) lf index = if is_index l.msg_index index then l else search_log lf index

unfoldable pub find_log : List LogFormat → ℕ → LogFormat
unfolding log_at
find_log lf index = if leb (length lf) index then no_log else log_at (get_elem? lf index) lf index

-- what a log event adds to te.Sub
unfoldable pub log_sub_event : Option TxEventsAttributes → List SubsetEvent
log_sub_event none = []
log_sub_event (some attributes) =
    subset
      (record no_fields {
        type = attributes.action ∷ [];
        module_name = attributes.module_name;
        sender = map bare_transfer attributes.sender;
        recipient = map bare_transfer attributes.recipient;
      })
      Structs.nil
    ∷ []

unfoldable pub log_sub_events : List TxEvents → List SubsetEvent
unfolding log_sub_event
log_sub_events [] = []
log_sub_events (ev ∷ evs) = log_sub_event ev.attributes ++ log_sub_events evs

unfoldable pub event_from_logs : LogFormat → TransactionEvent
unfolding log_sub_events
event_from_logs lf = record {
  id = format_index lf.msg_index;
  kind = "";
  sub = log_sub_events lf.events;
}

-- tev.Sub[0].Error = subsError, if it is nil; a new event if there is none
unfoldable pub set_first_error : List SubsetEvent → String → List SubsetEvent
set_first_error [] text = subset (record no_fields { error = some text }) Structs.nil ∷ []
set_first_error (subset se subs ∷ rest) text = elim se.error [
  | none ↦ subset (record se { error = some text }) subs ∷ rest
  | some _ ↦ subset se subs ∷ rest
]

-- the event of a log that no event of a message stands for
unfoldable pub log_event : LogFormat → TransactionEvent
unfolding event_from_logs set_first_error
log_event logf =
    let tev = event_from_logs logf in
    if logf.success then tev else record tev { sub = set_first_error tev.sub logf.log_message }

-- len(ev.Type) > 0
unfoldable pub kind_and_sub : String → SubsetEvent → String × List SubsetEvent
kind_and_sub type (subset se subs) = elim se.type [
  | [] ↦ ("", [])
  | t ∷ ts ↦ (type, subset se subs ∷ [])
]

-- the event of the message at an index, if its mapper returned one
unfoldable pub message_event : ℕ → String → Outcome SubsetEvent → Outcome (List TransactionEvent)
unfolding kind_and_sub
message_event index type (ok ev) =
    let (kind, sub) = kind_and_sub type ev in
    ok (record { id = format_uint index; kind = kind; sub = sub } ∷ [])
message_event index type (err e) = ok []
message_event index type panic = panic

abbrev type_of : Msg → String
type_of (msg route type body) = type

-- the loop over the messages, from an index on: a message that fails is passed over
unfoldable pub message_events :
    External → ℕ → List Msg → List LogFormat → Outcome (List TransactionEvent)
message_events ext index [] tx_log = ok []
message_events ext index (m ∷ ms) tx_log = do
  here ← message_event index (type_of m) (get_sub_event ext m (find_log tx_log index))
  rest ← message_events ext (suc index) ms tx_log
  ok (here ++ rest)

-- presentIndexes: the ids of the events of messages
unfoldable pub is_present : List TransactionEvent → String → Bool
is_present [] id = false
is_present (tev ∷ tevs) id = str_eq tev.id id || is_present tevs id

-- the loop over the logs
unfoldable pub log_events : List TransactionEvent → List LogFormat → List TransactionEvent
log_events present [] = []
log_events present (logf ∷ logs) =
    let rest = log_events present logs in
    if is_present present (format_index logf.msg_index) then rest else log_event logf ∷ rest

-- TxLogError
pub record TxLogError : Type 0 where
  pub codespace : String
  pub message : String

abbrev pub no_error : TxLogError
no_error = record { codespace = ""; message = "" }

unfoldable pub error_events : TxLogError → List TransactionEvent
error_events tx_err =
    if str_eq tx_err.message ""
    then []
    else record {
      id = "";
      kind = "error";
      sub =
          subset
            (record no_fields {
              type = "error" ∷ [];
              module_name = tx_err.codespace;
              error = some tx_err.message;
            })
            Structs.nil
          ∷ [];
    }
      ∷ []

-- the events that appendEvents appends to trans.Events
unfoldable pub append_events :
    External → List Msg → List LogFormat → TxLogError → Outcome (List TransactionEvent)
append_events ext msgs tx_log tx_err = do
  present ← message_events ext 0 msgs tx_log
  ok (present ++ log_events present tx_log ++ error_events tx_err)
