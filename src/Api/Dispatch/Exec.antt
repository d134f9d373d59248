-- ===== src/Api/Dispatch/Exec.antt =====
-- The events of the messages inside an "exec_delegated" message.
use terra_worker.Prelude.{◌≡◌, refl, List, [], ◌∷◌, if◌then◌else◌}
use terra_worker.Go.Outcome.{GoError, ok, err}
use terra_worker.Structs.{SubsetFields, SubsetEvent, SubsetEvents, subset, no_fields, account}
use terra_worker.Structs
use terra_worker.Api.Types.{LogFormat}
use terra_worker.External.{External}
use terra_worker.Mapper.Messages
use terra_worker.Mapper.Messages.{Msg, Msgs, MsgBody, Address, msg, exec_authorized}
use terra_worker.Mapper.Messages.Assertions.{as_exec_authorized}
use terra_worker.Mapper.Encoding.{asserted, encode_acc}
use terra_worker.Mapper.Msgauth.{msgauth_exec_authorized_to_sub}
use terra_worker.Api.Dispatch.{msgauth_event, dispatch, after_event, get_sub_event, sub_events}

-- the messages of a list, followed by others
pub append_msgs : List Msg → Msgs → Msgs
append_msgs [] ms = ms
append_msgs (m ∷ ms) rest = Messages.cons m (append_msgs ms rest)

pub to_events : List SubsetEvent → SubsetEvents
to_events [] = Structs.nil
to_events (e ∷ es) = Structs.cons e (to_events es)

-- each message of a list is mapped to the event of the other list
pub data Mapped (ext : External) (lf : LogFormat) : List Msg → List SubsetEvent → Type 0 where
  none_left : Mapped ext lf [] []
  one_more :
      {m : Msg} {e : SubsetEvent} {ms : List Msg} {es : List SubsetEvent}
      → get_sub_event ext m lf ≡ ok e
      → Mapped ext lf ms es
      → Mapped ext lf (m ∷ ms) (e ∷ es)

sub_events-Mapped :
    {ext : External} {lf : LogFormat} {ms : List Msg} {es : List SubsetEvent}
    → Mapped ext lf ms es
    → sub_events ext (append_msgs ms Messages.nil) lf ≡ ok (to_events es)
unfolding sub_events append_msgs to_events after_event
sub_events-Mapped none_left = refl
sub_events-Mapped (one_more h rest) = rw (h, sub_events-Mapped rest)

sub_events_stop :
    {ext : External} {lf : LogFormat} {ms : List Msg} {es : List SubsetEvent} (bad : Msg)
    (rest : Msgs) {e : GoError}
    → Mapped ext lf ms es
    → get_sub_event ext bad lf ≡ err e
    → sub_events ext (append_msgs ms (Messages.cons bad rest)) lf ≡ ok (to_events es)
unfolding sub_events append_msgs to_events after_event
sub_events_stop bad rest none_left fails = rw fails
sub_events_stop bad rest (one_more h more) fails = rw (h, sub_events_stop bad rest more fails)

-- the event of the message itself
pub exec_fields : External → Address → SubsetFields
exec_fields ext grantee = record no_fields {
  type = "exec_delegated" ∷ [];
  module_name = "msgAuth";
  node =
      (
        "grantee",
        account (if ext.acc_address_empty grantee then "" else (encode_acc ext grantee).0) ∷ [],
      )
      ∷ [];
}

module _ (ext : External) (lf : LogFormat) (grantee : Address) where
  get_sub_event_exec :
      (msgs : Msgs) {events : SubsetEvents}
      → sub_events ext msgs lf ≡ ok events
      → get_sub_event ext (msg "msgauth" "exec_delegated" (exec_authorized grantee msgs)) lf
        ≡ ok (subset (exec_fields ext grantee) events)
  unfolding get_sub_event dispatch msgauth_event msgauth_exec_authorized_to_sub as_exec_authorized
      asserted exec_fields
  get_sub_event_exec msgs h = rw h

  -- Where every message inside is mapped, the event of an "exec_delegated" message holds the event
  -- of each of them, in order.
  pub get_sub_event_exec_all :
      (ms : List Msg) (es : List SubsetEvent)
      → Mapped ext lf ms es
      → get_sub_event ext
          (msg "msgauth" "exec_delegated" (exec_authorized grantee (append_msgs ms Messages.nil)))
          lf
        ≡ ok (subset (exec_fields ext grantee) (to_events es))
  get_sub_event_exec_all ms es h =
      get_sub_event_exec (append_msgs ms Messages.nil) (sub_events-Mapped h)

  -- Where a message inside an "exec_delegated" message fails, the call succeeds all the same: the
  -- event holds the events of the messages before it, and neither the error nor the messages
  -- behind it leave a trace.
  pub get_sub_event_exec_stops :
      (ms : List Msg) (es : List SubsetEvent) (bad : Msg) (rest : Msgs) (e : GoError)
      → Mapped ext lf ms es
      → get_sub_event ext bad lf ≡ err e
      → get_sub_event ext
          (msg "msgauth" "exec_delegated"
            (exec_authorized grantee (append_msgs ms (Messages.cons bad rest))))
          lf
        ≡ ok (subset (exec_fields ext grantee) (to_events es))
  get_sub_event_exec_stops ms es bad rest e h fails =
      get_sub_event_exec (append_msgs ms (Messages.cons bad rest))
        (sub_events_stop bad rest h fails)
