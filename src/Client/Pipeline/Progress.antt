-- ===== src/Client/Pipeline/Progress.antt =====
-- The goroutines never wait for one another for good.
use mathlib.Core.Bool.{false≢true}
use mathlib.Core.Path.{subst}
use terra_worker.Prelude.{
  ℕ, zero, suc, ◌+◌, ◌*◌, ◌<◌, String, List, [], ◌∷◌, ◌++◌, ◌≡◌, refl, sym, ap, ◌∙◌, ◌⊎◌, inl, inr,
  true, false, All, length, length-append, arith, ltb, ltb→lt, Bool-cases,
}
use terra_worker.Go.Outcome.{Outcome, ok}
use terra_worker.Api.Search.{ToGet}
use terra_worker.Api.Transactions.{TxResponse}
use terra_worker.Client.Stream.{OutResp}
use terra_worker.Client.Pipeline.{
  loop_actions, Action, emit, request, Main, walking, closed_to_get, closed_tx_in, returned, Worker,
  waiting, sending, stopped, Converter, receiving, holding, finished, Pipeline, start_pipeline,
  to_get_capacity, tx_in_capacity, Step, put_block, put_search, close_to_get, take, put_tx, all_put,
  stop, close_tx_in, receive, put_converted, finish, leave, Run,
}
use terra_worker.Client.Pipeline.Orderly.{
  IsOrderly, to_get_open, tx_in_open, converts, is_busy, IsStopped, open_converts, walking_busy,
}
use terra_worker.Client.Pipeline.Ordered.{Run-IsOrderly}
use terra_worker.Client.Pipeline.Weights.{
  weight, of_found, of_get, of_outs, Step-weight, Run-weight,
}
use terra_worker.Client.Pipeline.Settled.{
  block_responses, steps_of, all_found, of_requests, hops, weight-start, weight-returned,
}
use terra_worker.Client.Ranges.{all_searches}
use terra_worker.Structs.{Block}

-- a worker that has not stopped, where there is one
busy_or_IsStopped :
    (ws : List Worker)
    → All IsStopped ws
      ⊎ ((before : List Worker) × (w : Worker) × (behind : List Worker) × (ws
            ≡ before ++ w ∷ behind)
          × (is_busy w ≡ true))
busy_or_IsStopped [] = inl tt
busy_or_IsStopped (waiting ∷ ws) = inr ([], waiting, ws, refl, refl)
busy_or_IsStopped (sending txs ∷ ws) = inr ([], sending txs, ws, refl, refl)
busy_or_IsStopped (stopped ∷ ws) = elim (busy_or_IsStopped ws) [
  | inl all ↦ inl (refl, all)
  | inr (before, w, behind, at, busy) ↦
      inr (stopped ∷ before, w, behind, ap (λ l. stopped ∷ l) at, busy)
]

module _ {search : ToGet → Outcome (List TxResponse)} {convert : TxResponse → Outcome OutResp}
    (found : ToGet → List TxResponse) (made : TxResponse → OutResp)
    (finds : (g : ToGet) → search g ≡ ok (found g))
    (makes : (tx : TxResponse) → convert tx ≡ ok (made tx)) where
  abbrev Moves : Pipeline → Type 0
  Moves s = (t : Pipeline) × Step search convert s t

  -- the converter, before it has finished: a transaction is there, or it holds one
  converter-Moves :
      (s : Pipeline) (c : Converter) (tx : TxResponse) (rest : List TxResponse)
      → s.converter ≡ c
      → converts c ≡ true
      → s.tx_in ≡ tx ∷ rest
      → Moves s
  converter-Moves s receiving tx rest at c from = (_, receive tx rest (made tx) at from (makes tx))
  converter-Moves s (holding r) tx rest at c from = (_, put_converted r at)
  converter-Moves s finished tx rest at c from = cc

  full-Moves :
      (s : Pipeline) (txs : List TxResponse)
      → s.tx_in ≡ txs
      → ltb (length txs) tx_in_capacity ≡ false
      → converts s.converter ≡ true
      → Moves s
  full-Moves s [] from full c = cc
  full-Moves s (tx ∷ txs) from full c = converter-Moves s s.converter tx txs refl c from

  -- a worker that has transactions to send, or for which there is a search or nothing more
  worker-Moves :
      (s : Pipeline) (before behind : List Worker) (w : Worker) (gs : List ToGet)
      → s.workers ≡ before ++ w ∷ behind
      → is_busy w ≡ true
      → s.to_get ≡ gs
      → (s.main ≡ closed_to_get) ⊎ ((gs ≡ []) → ⊥)
      → converts s.converter ≡ true
      → Moves s
  worker-Moves s before behind waiting [] at busy asked more c = elim more [
    | inl closed ↦ (_, stop before behind at asked closed)
    | inr some_left ↦ absurd (some_left refl)
  ]
  worker-Moves s before behind waiting (g ∷ gs) at busy asked more c =
      (_, take before behind g gs (found g) at asked (finds g))
  worker-Moves s before behind (sending []) gs at busy asked more c = (_, all_put before behind at)
  worker-Moves s before behind (sending (tx ∷ txs)) gs at busy asked more c =
      elim (Bool-cases (ltb (length s.tx_in) tx_in_capacity)) [
        | inl room ↦ (_, put_tx before behind tx txs at (ltb→lt _ _ room))
        | inr full ↦ full-Moves s s.tx_in refl full c
      ]
  worker-Moves s before behind stopped gs at busy asked more c = cc

  -- the loop over the map
  walk-Moves : (s : Pipeline) (todo : List Action) → IsOrderly s → s.main ≡ walking todo → Moves s
  walk-Moves s [] h at = (_, close_to_get at)
  walk-Moves s (emit r ∷ todo) h at = (_, put_block r todo at)
  walk-Moves s (request g ∷ todo) h at = elim (Bool-cases (ltb (length s.to_get) to_get_capacity)) [
    | inl room ↦ (_, put_search g todo at (ltb→lt _ _ room))
    | inr full ↦
        let (w, ws, e) = h.a_worker in
        let busy : is_busy w ≡ true =
          (subst (All (λ w. is_busy w ≡ true)) e (walking_busy h (ap to_get_open at))).0 in
        worker-Moves s [] ws w s.to_get e busy refl
          (inr λ none_asked.
            false≢true (sym full ∙ ap (λ l. ltb (length l) to_get_capacity) none_asked))
          (open_converts h (ap tx_in_open at))
  ]

  -- behind close(txIn)
  end-Moves :
      (s : Pipeline) (c : Converter) (txs : List TxResponse)
      → s.main ≡ closed_tx_in
      → s.converter ≡ c
      → s.tx_in ≡ txs
      → Moves s
  end-Moves s receiving [] at is from = (_, finish is from at)
  end-Moves s receiving (tx ∷ txs) at is from = converter-Moves s receiving tx txs is refl from
  end-Moves s (holding r) txs at is from = (_, put_converted r is)
  end-Moves s finished txs at is from = (_, leave at is)

  moves : (s : Pipeline) (m : Main) → IsOrderly s → s.main ≡ m → (s.main ≡ returned) ⊎ Moves s
  moves s (walking todo) h at = inr (walk-Moves s todo h at)
  moves s closed_to_get h at = inr (elim (busy_or_IsStopped s.workers) [
    | inl all ↦ (_, close_tx_in at all)
    | inr (before, w, behind, is, busy) ↦
        worker-Moves s before behind w s.to_get is busy refl (inl at)
          (open_converts h (ap tx_in_open at))
  ])
  moves s closed_tx_in h at = inr (end-Moves s s.converter s.tx_in at refl refl)
  moves s returned h at = inl at

  of_found-one : (txs : List TxResponse) → of_found found made 1 (λ r. 0) txs ≡ 3 * length txs
  unfolding of_found
  of_found-one [] = refl
  of_found-one (tx ∷ txs) = omega (arith, of_found-one txs)

  of_requests-one :
      (gs : List ToGet)
      → of_requests found made 1 (λ r. 0) gs ≡ 3 * length gs + 3 * length (all_found found gs)
  unfolding of_requests all_found of_get
  of_requests-one [] = refl
  of_requests-one (g ∷ gs) = omega (
    arith,
    of_requests-one gs,
    of_found-one (found g),
    length-append (found g) (all_found found gs),
  )

  hops-one : (n : ℕ) → hops found made 1 (λ r. 0) n ≡ n
  unfolding hops
  hops-one zero = refl
  hops-one (suc n) = omega (arith, hops-one n)

  of_outs-free : (rs : List OutResp) → of_outs found made 1 (λ r. 0) rs ≡ 0
  unfolding of_outs
  of_outs-free [] = refl
  of_outs-free (r ∷ rs) = omega (arith, of_outs-free rs)

  module _ (encode : Block → String) (entries : List (ℕ × Block)) {n : ℕ} {s : Pipeline}
      (r : Run search convert (start_pipeline (loop_actions encode entries)) n s) where
    steps_left : n + weight found made 1 (λ r. 0) s ≡ steps_of found entries
    steps_left = omega (
      arith,
      Run-weight found made 1 (λ r. 0) search convert finds makes r,
      weight-start found made 1 (λ r. 0) encode entries,
      hops-one 9,
      hops-one (length entries),
      of_outs-free (block_responses encode entries),
      of_requests-one (all_searches entries),
    )

    -- the state is that of the return, or there is another step
    pub Run-ends :
        ((s.main ≡ returned) × (n ≡ steps_of found entries))
        ⊎ ((n < steps_of found entries) × (t : Pipeline) × Step search convert s t)
    Run-ends =
        let h = Run-IsOrderly _ r in
        elim (moves s s.main h refl) [
          | inl at ↦ inl (
            at,
            omega (
              arith,
              steps_left,
              weight-returned found made 1 (λ r. 0) s h at,
              of_outs-free s.out,
            ),
          )
          | inr (t, st) ↦ inr (
            omega (
              arith,
              steps_left,
              Step-weight found made 1 (λ r. 0) search convert finds makes st,
            ),
            t,
            st,
          )
        ]
