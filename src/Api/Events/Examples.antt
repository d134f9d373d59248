-- ===== src/Api/Events/Examples.antt =====
-- The events of a transaction at concrete inputs, and the theorems applied to them.
use Prim.Native.String.{◌++◌ as append}
use terra_worker.Prelude.{
  ℕ, ◌≡◌, ◌≢◌, sym, ◌∙◌, refl, true, false, none, List, [], ◌∷◌, ◌<◌, length,
}
use terra_worker.Prelude.Int.{pos}
use terra_worker.Go.Outcome.{Outcome, GoError, ok, err, panic, wrap, unknown_message_type}
use terra_worker.Go.Text.{format_uint}
use terra_worker.Structs.{TransactionEvent, SubsetEvent, subset, no_fields, account}
use terra_worker.Structs
use terra_worker.Api.Types.{LogFormat, whole, no_log}
use terra_worker.External.{External}
use terra_worker.Mapper.Messages
use terra_worker.Mapper.Single.{slashing_unjail_to_sub}
use terra_worker.Mapper.Encoding.{asserted, checked, encode_val}
use terra_worker.Mapper.Messages.Assertions.{as_unjail}
use terra_worker.Api.Dispatch.{get_sub_event, dispatch, slashing_event, leaf, unknown}
use terra_worker.Mapper.Messages.{Msg, msg, unlisted}
use terra_worker.Api.Events.{
  find_log, search_log, log_at, is_index, no_error, append_events, message_events, message_event,
  log_events, log_event, event_from_logs, kind_and_sub, error_events, is_present, format_index,
}
use terra_worker.Api.Events.Counts.{times}
use terra_worker.Api.Events.Ids.{NonePanics, append_events-times}

abbrev plain : External
plain = record {
  convert_and_encode = λ prefix bytes. (append prefix "1qqq", none);
  bech32_prefix_acc_addr = "terra";
  bech32_prefix_val_addr = "terravaloper";
  undefined_number = λ s. pos 0;
  acc_address_empty = λ bytes. false;
  val_address_empty = λ bytes. false;
  acc_address_string = λ bytes. "terra1qqq";
}

abbrev log_of : ℕ → LogFormat
log_of i = record no_log { msg_index = whole i; success = true }

-- a message that has no mapper and one that has
abbrev messages : List Msg
messages =
    msg "ibc" "transfer" unlisted
    ∷ msg "slashing" "unjail" (Messages.unjail (record { validator_addr = 7 ∷ [] }))
    ∷ []

abbrev logs : List LogFormat
logs = log_of 0 ∷ log_of 1 ∷ []

abbrev unjailed : SubsetEvent
unjailed =
    subset
      (record no_fields {
        type = "unjail" ∷ [];
        module_name = "slashing";
        node = ("validator", account "terravaloper1qqq" ∷ []) ∷ [];
      })
      Structs.nil

abbrev events : List TransactionEvent
events =
    record { id = "1"; kind = "unjail"; sub = unjailed ∷ [] }
    ∷ record { id = "0"; kind = ""; sub = [] }
    ∷ []

events_appended : append_events plain messages logs no_error ≡ ok events
unfolding append_events message_events message_event get_sub_event dispatch slashing_event leaf
    unknown slashing_unjail_to_sub as_unjail asserted checked encode_val log_events log_event
    event_from_logs kind_and_sub error_events is_present format_index format_uint
events_appended = refl

abbrev unjailing : Msg
unjailing = msg "slashing" "unjail" (Messages.unjail (record { validator_addr = 7 ∷ [] }))

foreign_fails :
    get_sub_event plain (msg "ibc" "transfer" unlisted) (log_of 0)
    ≡ err (wrap "problem with ibc - transfer" unknown_message_type)
unfolding get_sub_event dispatch unknown
foreign_fails = refl

unjail_maps : get_sub_event plain unjailing (log_of 1) ≡ ok unjailed
unfolding get_sub_event dispatch slashing_event leaf slashing_unjail_to_sub as_unjail asserted
    checked encode_val
unjail_maps = refl

failed_returns : (e : GoError) → ◌≢◌ {A = Outcome SubsetEvent} (err e) panic
failed_returns e = cc

mapped_returns : ok unjailed ≢ panic
mapped_returns = cc

calm : NonePanics plain 0 messages logs
unfolding find_log search_log log_at is_index
calm = (
  (λ e. failed_returns _ (sym foreign_fails ∙ e)),
  ((λ e. mapped_returns (sym unjail_maps ∙ e)), tt),
)

append_events-times_example :
    (evs : List TransactionEvent) × (append_events plain messages logs no_error ≡ ok evs)
    × ((k : ℕ) → k < length logs → times (format_uint k) evs ≡ 1)
append_events-times_example = append_events-times plain messages logs (refl, (refl, tt)) calm
