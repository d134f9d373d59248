-- ===== src/Client/Pipeline/Orderly.antt =====
-- In which order the goroutines come to their ends.
use mathlib.Core.Bool.{false≢true}
use mathlib.Core.Path.{subst}
use terra_worker.Prelude.{
  List, [], ◌∷◌, ◌++◌, ◌≡◌, refl, sym, ap, ◌∙◌, ◌⊎◌, inl, inr, Bool, true, false, All, All-imp,
  All-at, All-replace,
}
use terra_worker.Api.Search.{ToGet}
use terra_worker.Api.Transactions.{TxResponse}
use terra_worker.Client.Stream.{OutResp}
use terra_worker.Client.Pipeline.{
  Action, Main, walking, closed_to_get, closed_tx_in, returned, Worker, waiting, sending, stopped,
  Converter, receiving, holding, finished, Pipeline,
}

-- the channel is closed
abbrev pub to_get_open : Main → Bool
to_get_open (walking todo) = true
to_get_open closed_to_get = false
to_get_open closed_tx_in = false
to_get_open returned = false

abbrev pub tx_in_open : Main → Bool
tx_in_open (walking todo) = true
tx_in_open closed_to_get = true
tx_in_open closed_tx_in = false
tx_in_open returned = false

abbrev pub has_returned : Main → Bool
has_returned (walking todo) = false
has_returned closed_to_get = false
has_returned closed_tx_in = false
has_returned returned = true

abbrev pub is_busy : Worker → Bool
is_busy waiting = true
is_busy (sending txs) = true
is_busy stopped = false

abbrev pub converts : Converter → Bool
converts receiving = true
converts (holding r) = true
converts finished = false

-- a worker stops only behind the last search
abbrev pub Stops : Main → List ToGet → Worker → Type 0
Stops main to_get w = (is_busy w ≡ true) ⊎ ((to_get ≡ []) × (to_get_open main ≡ false))

-- the converter finishes only behind the last transaction
abbrev pub Finishes : Main → List TxResponse → Converter → Type 0
Finishes main tx_in c = (converts c ≡ true) ⊎ ((tx_in ≡ []) × (tx_in_open main ≡ false))

abbrev pub IsStopped : Worker → Type 0
IsStopped w = w ≡ stopped

pub record IsOrderly (s : Pipeline) : Type 0 where
  pub a_worker : (w : Worker) × (ws : List Worker) × (s.workers ≡ w ∷ ws)
  pub each : All (Stops s.main s.to_get) s.workers
  pub converter : Finishes s.main s.tx_in s.converter
  pub all_stopped : (tx_in_open s.main ≡ true) ⊎ All IsStopped s.workers
  pub at_end : (has_returned s.main ≡ false) ⊎ (s.converter ≡ finished)

pub a_worker_still :
    (before behind : List Worker) (w : Worker)
    → (v : Worker) × (ws : List Worker) × (before ++ w ∷ behind ≡ v ∷ ws)
a_worker_still [] behind w = (w, behind, refl)
a_worker_still (v ∷ before) behind w = (v, before ++ w ∷ behind, refl)

module _ {s : Pipeline} (h : IsOrderly s) where
  pub walking_busy : to_get_open s.main ≡ true → All (λ w. is_busy w ≡ true) s.workers
  walking_busy o =
      All-imp s.workers (λ w st. elim st [ inl b ↦ b | inr p ↦ absurd (false≢true (sym p.1 ∙ o)) ])
        h.each

  pub asked_busy :
      (g : ToGet) (rest : List ToGet) → s.to_get ≡ g ∷ rest → All (λ w. is_busy w ≡ true) s.workers
  asked_busy g rest from = All-imp s.workers (λ w st. elim st [ inl b ↦ b | inr p ↦ cc ]) h.each

  pub open_converts : tx_in_open s.main ≡ true → converts s.converter ≡ true
  open_converts o = elim h.converter [ inl c ↦ c | inr p ↦ absurd (false≢true (sym p.1 ∙ o)) ]

  -- what a step of the loop leaves
  pub behind_walk :
      {todo : List Action}
      → s.main ≡ walking todo
      → (m : Main) (gs : List ToGet) (outs : List OutResp) → tx_in_open m ≡ true
      → has_returned m ≡ false
      → IsOrderly (record s { main = m; to_get = gs; out = outs })
  behind_walk at m gs outs o going = record {
    a_worker = h.a_worker;
    each = All-imp s.workers (λ w b. inl b) (walking_busy (ap to_get_open at));
    converter = inl (open_converts (ap tx_in_open at));
    all_stopped = inl o;
    at_end = inl going;
  }

  module _ (before behind : List Worker) (w : Worker) (at : s.workers ≡ before ++ w ∷ behind) where
    pub busy_open : is_busy w ≡ true → tx_in_open s.main ≡ true
    busy_open busy = elim h.all_stopped [
      | inl o ↦ o
      | inr all ↦
          let none_busy : w ≡ stopped =
            All-at IsStopped before behind w (subst (All IsStopped) at all) in
          absurd (false≢true (sym (ap is_busy none_busy) ∙ busy))
    ]

    pub each-replace :
        (v : Worker) → Stops s.main s.to_get v → All (Stops s.main s.to_get) (before ++ v ∷ behind)
    each-replace v new =
        All-replace (Stops s.main s.to_get) before behind w v
          (subst (All (Stops s.main s.to_get)) at h.each) new
