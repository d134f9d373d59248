-- ===== src/Client/Pipeline/Completed.antt =====
-- Every run of a range's goroutines can be completed.
use terra_worker.Prelude.{ℕ, zero, suc, ◌+◌, ◌≤◌, String, inl, inr, List, ◌≡◌, arith}
use terra_worker.Go.Outcome.{Outcome, ok}
use terra_worker.Structs.{Block}
use terra_worker.Api.Search.{ToGet}
use terra_worker.Api.Transactions.{TxResponse}
use terra_worker.Client.Stream.{OutResp}
use terra_worker.Client.Pipeline.{
  loop_actions, returned, Pipeline, start_pipeline, Step, Run, here, next,
}
use terra_worker.Client.Pipeline.Settled.{steps_of}
use terra_worker.Client.Pipeline.Progress.{Run-ends}

module _ {search : ToGet → Outcome (List TxResponse)} {convert : TxResponse → Outcome OutResp} where
  Run-first :
      {s u t : Pipeline} {m : ℕ}
      → Step search convert s u
      → Run search convert u m t
      → Run search convert s (suc m) t
  Run-first st here = next here st
  Run-first st (next r last) = next (Run-first st r) last

  module _ (found : ToGet → List TxResponse) (made : TxResponse → OutResp)
      (finds : (g : ToGet) → search g ≡ ok (found g))
      (makes : (tx : TxResponse) → convert tx ≡ ok (made tx)) (encode : Block → String)
      (entries : List (ℕ × Block)) where
    -- the steps that are left to the return
    abbrev pub Completion : ℕ → Pipeline → Type 0
    Completion n s =
        (m : ℕ) × (t : Pipeline) × Run search convert s m t
        × (t.main ≡ returned)
        × (n + m ≡ steps_of found entries)

    complete :
        (k : ℕ) {n : ℕ} {s : Pipeline}
        → Run search convert (start_pipeline (loop_actions encode entries)) n s
        → steps_of found entries ≤ n + k
        → Completion n s
    complete zero {n} {s} r enough = elim (Run-ends found made finds makes encode entries r) [
      | inl (at, all) ↦ (0, s, here, at, omega (arith, all))
      | inr (fewer, u, st) ↦ absurd (omega (arith, fewer))
    ]
    complete (suc k) {n} {s} r enough = elim (Run-ends found made finds makes encode entries r) [
      | inl (at, all) ↦ (0, s, here, at, omega (arith, all))
      | inr (fewer, u, st) ↦
          let (m, t, rest, at, all) = complete k (next r st) (omega arith) in
          (suc m, t, Run-first st rest, at, omega (arith, all))
    ]

    -- Where no search and no conversion panics, the goroutines of getRangeSingular never come to
    -- wait for each other: from each state that they can reach there is a way on to the return of
    -- the function, and the steps done and those left are together as many as the blocks, the
    -- searches and what they find come to, whichever order was taken.
    pub Run-completes :
        (n : ℕ) (s : Pipeline)
        → Run search convert (start_pipeline (loop_actions encode entries)) n s
        → (m : ℕ) × (t : Pipeline) × Run search convert s m t
          × (t.main ≡ returned)
          × (n + m ≡ steps_of found entries)
    Run-completes n s r = complete (steps_of found entries) r (omega arith)
