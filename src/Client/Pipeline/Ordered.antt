-- ===== src/Client/Pipeline/Ordered.antt =====
-- The order is kept by every step.
use mathlib.Core.Bool.{false≢true}
use mathlib.Core.Path.{subst}
use terra_worker.Prelude.{
  ℕ, List, [], ◌∷◌, ◌++◌, ◌≡◌, refl, sym, ap, ◌∙◌, inl, inr, true, All, All-imp, All-replace,
}
use terra_worker.Go.Outcome.{Outcome}
use terra_worker.Api.Search.{ToGet}
use terra_worker.Api.Transactions.{TxResponse}
use terra_worker.Client.Stream.{OutResp}
use terra_worker.Client.Pipeline.{
  Action, walking, closed_to_get, returned, waiting, sending, stopped, finished, Pipeline,
  start_pipeline, Step, put_block, put_search, close_to_get, take, put_tx, all_put, stop,
  close_tx_in, receive, put_converted, finish, leave, Run, here, next,
}
use terra_worker.Client.Pipeline.Orderly.{
  to_get_open, tx_in_open, has_returned, is_busy, converts, Stops, IsStopped, IsOrderly,
  a_worker_still, asked_busy, open_converts, behind_walk, busy_open, each-replace,
}

start-IsOrderly : (todo : List Action) → IsOrderly (start_pipeline todo)
unfolding start_pipeline
start-IsOrderly todo = record {
  a_worker = (_, _, refl);
  each = (inl refl, (inl refl, (inl refl, (inl refl, (inl refl, tt)))));
  converter = inl refl;
  all_stopped = inl refl;
  at_end = inl refl;
}

module _ {search : ToGet → Outcome (List TxResponse)} {convert : TxResponse → Outcome OutResp} where
  Step-IsOrderly : {s t : Pipeline} → Step search convert s t → IsOrderly s → IsOrderly t
  Step-IsOrderly (put_block r todo at) h = behind_walk h at (walking todo) _ _ refl refl
  Step-IsOrderly (put_search g todo at room) h = behind_walk h at (walking todo) _ _ refl refl
  Step-IsOrderly (close_to_get at) h = behind_walk h at closed_to_get _ _ refl refl
  Step-IsOrderly {s} (take before behind g rest txs at from it) h = record {
    a_worker = a_worker_still before behind (sending txs);
    each =
        All-imp (before ++ sending txs ∷ behind) (λ w b. inl b)
          (All-replace (λ w. is_busy w ≡ true) before behind waiting (sending txs)
            (subst (All (λ w. is_busy w ≡ true)) at (asked_busy h g rest from)) refl);
    converter = h.converter;
    all_stopped = inl (busy_open h before behind waiting at refl);
    at_end = h.at_end;
  }
  Step-IsOrderly {s} (put_tx before behind tx txs at room) h =
      let still = busy_open h before behind (sending (tx ∷ txs)) at refl in
      record {
        a_worker = a_worker_still before behind (sending txs);
        each = each-replace h before behind (sending (tx ∷ txs)) at (sending txs) (inl refl);
        converter = inl (open_converts h still);
        all_stopped = inl still;
        at_end = h.at_end;
      }
  Step-IsOrderly {s} (all_put before behind at) h = record {
    a_worker = a_worker_still before behind waiting;
    each = each-replace h before behind (sending []) at waiting (inl refl);
    converter = h.converter;
    all_stopped = inl (busy_open h before behind (sending []) at refl);
    at_end = h.at_end;
  }
  Step-IsOrderly {s} (stop before behind at none_left closed) h = record {
    a_worker = a_worker_still before behind stopped;
    each = each-replace h before behind waiting at stopped (inr (none_left, ap to_get_open closed));
    converter = h.converter;
    all_stopped = inl (ap tx_in_open closed);
    at_end = h.at_end;
  }
  Step-IsOrderly {s} (close_tx_in at all) h = record {
    a_worker = h.a_worker;
    each = All-imp s.workers (λ w st. elim st [ inl b ↦ inl b | inr p ↦ inr (p.0, refl) ]) h.each;
    converter = inl (open_converts h (ap tx_in_open at));
    all_stopped = inr all;
    at_end = inl refl;
  }
  Step-IsOrderly (receive tx rest r at from it) h = record {
    a_worker = h.a_worker;
    each = h.each;
    converter = inl refl;
    all_stopped = h.all_stopped;
    at_end = elim h.at_end [ inl going ↦ inl going | inr done ↦ cc ];
  }
  Step-IsOrderly (put_converted r at) h = record {
    a_worker = h.a_worker;
    each = h.each;
    converter = inl refl;
    all_stopped = h.all_stopped;
    at_end = elim h.at_end [ inl going ↦ inl going | inr done ↦ cc ];
  }
  Step-IsOrderly (finish at none_left closed) h = record {
    a_worker = h.a_worker;
    each = h.each;
    converter = inr (none_left, ap tx_in_open closed);
    all_stopped = h.all_stopped;
    at_end = inl (ap has_returned closed);
  }
  Step-IsOrderly {s} (leave at done) h = record {
    a_worker = h.a_worker;
    each = All-imp s.workers (λ w st. elim st [ inl b ↦ inl b | inr p ↦ inr (p.0, refl) ]) h.each;
    converter = elim h.converter [ inl c ↦ inl c | inr p ↦ inr (p.0, refl) ];
    all_stopped = elim h.all_stopped [
      | inl o ↦ absurd (false≢true (sym (ap tx_in_open at) ∙ o))
      | inr all ↦ inr all
    ];
    at_end = inr done;
  }

  pub Run-IsOrderly :
      (todo : List Action) {n : ℕ} {s : Pipeline}
      → Run search convert (start_pipeline todo) n s
      → IsOrderly s
  Run-IsOrderly todo here = start-IsOrderly todo
  Run-IsOrderly todo (next r st) = Step-IsOrderly st (Run-IsOrderly todo r)

-- Where everything is once the function has returned.
pub returned_empty :
    {s : Pipeline}
    → IsOrderly s
    → s.main ≡ returned
    → (s.to_get ≡ []) × All IsStopped s.workers × (s.tx_in ≡ []) × (s.converter ≡ finished)
returned_empty {s} h at =
    let all : All IsStopped s.workers = elim h.all_stopped [
      | inl o ↦ absurd (false≢true (sym (ap tx_in_open at) ∙ o))
      | inr all ↦ all
    ] in
    let done : s.converter ≡ finished = elim h.at_end [
      | inl going ↦ absurd (false≢true (sym going ∙ ap has_returned at))
      | inr done ↦ done
    ] in
    let (w, ws, e) = h.a_worker in
    let none_asked : s.to_get ≡ [] = elim (subst (All (Stops s.main s.to_get)) e h.each).0 [
      | inl busy ↦
          let stops : w ≡ stopped = (subst (All IsStopped) e all).0 in
          absurd (false≢true (sym (ap is_busy stops) ∙ busy))
      | inr p ↦ p.0
    ] in
    let none_left : s.tx_in ≡ [] = elim h.converter [
      | inl c ↦ absurd (false≢true (sym (ap converts done) ∙ c))
      | inr p ↦ p.0
    ] in
    (none_asked, all, none_left, done)
