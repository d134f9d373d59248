-- ===== src/Client/Pipeline/Settled.antt =====
-- The weight of a state at the beginning and at the end.
use terra_worker.Prelude.{
  ℕ, zero, suc, ◌+◌, ◌*◌, String, List, [], ◌∷◌, ◌++◌, ◌≡◌, refl, ap, arith, All, map, length,
}
use terra_worker.Structs.{Block}
use terra_worker.Api.Search.{ToGet}
use terra_worker.Api.Transactions.{TxResponse}
use terra_worker.Client.Stream.{OutResp}
use terra_worker.Client.Ranges.{block_response, block_searches, all_searches}
use terra_worker.Client.Pipeline.{
  Action, request, loop_actions, Worker, returned, Pipeline, start_pipeline,
}
use terra_worker.Client.Pipeline.Orderly.{IsOrderly, IsStopped}
use terra_worker.Client.Pipeline.Ordered.{returned_empty}
use terra_worker.Client.Pipeline.Weights.{
  of_outs, of_put, of_get, of_gets, of_actions, of_main, of_worker, of_workers, of_converter,
  weight,
}

-- the blocks' responses
abbrev pub block_responses : (Block → String) → List (ℕ × Block) → List OutResp
block_responses encode entries = map (λ e. block_response encode e.1) entries

module _ (found : ToGet → List TxResponse) where
  unfoldable pub all_found : List ToGet → List TxResponse
  all_found [] = []
  all_found (g ∷ gs) = found g ++ all_found gs

  -- the steps to the end, for a map's entries
  abbrev pub steps_of : List (ℕ × Block) → ℕ
  steps_of entries =
      9
      + length entries
      + 3 * length (all_searches entries)
      + 3 * length (all_found (all_searches entries))

  module _ (made : TxResponse → OutResp) (hop : ℕ) (cost : OutResp → ℕ) where
    of_workers-stopped :
        (ws : List Worker) → All IsStopped ws → of_workers found made hop cost ws ≡ 0
    unfolding of_workers of_worker
    of_workers-stopped [] h = refl
    of_workers-stopped (w ∷ ws) (h, hs) =
        omega (arith, ap (of_worker found made hop cost) h, of_workers-stopped ws hs)

    pub weight-returned :
        (s : Pipeline)
        → IsOrderly s
        → s.main ≡ returned
        → weight found made hop cost s ≡ of_outs found made hop cost s.out
    unfolding weight
    weight-returned s h at =
        let (asked, all, left, done) = returned_empty h at in
        omega (
          arith,
          ap (of_main found made hop cost) at,
          ap (of_gets found made hop cost) asked,
          of_workers-stopped s.workers all,
          ap (of_put found made hop cost) left,
          ap (of_converter found made hop cost) done,
        )

    unfoldable pub of_requests : List ToGet → ℕ
    of_requests [] = 0
    of_requests (g ∷ gs) = hop + of_get found made hop cost g + of_requests gs

    of_requests-append :
        (gs hs : List ToGet) → of_requests (gs ++ hs) ≡ of_requests gs + of_requests hs
    unfolding of_requests
    of_requests-append [] hs = omega arith
    of_requests-append (g ∷ gs) hs = omega (arith, of_requests-append gs hs)

    of_actions-requests :
        (gs : List ToGet) (todo : List Action)
        → of_actions found made hop cost (map request gs ++ todo)
          ≡ of_requests gs + of_actions found made hop cost todo
    unfolding of_actions of_requests
    of_actions-requests [] todo = omega arith
    of_actions-requests (g ∷ gs) todo = omega (arith, of_actions-requests gs todo)

    unfoldable pub hops : ℕ → ℕ
    hops zero = 0
    hops (suc n) = hop + hops n

    of_actions-loop_actions :
        (encode : Block → String) (entries : List (ℕ × Block))
        → of_actions found made hop cost (loop_actions encode entries)
          ≡ hops (length entries)
            + of_outs found made hop cost (block_responses encode entries)
            + of_requests (all_searches entries)
    unfolding of_actions of_requests hops loop_actions all_searches of_outs
    of_actions-loop_actions encode [] = omega arith
    of_actions-loop_actions encode ((h, block) ∷ entries) = omega (
      arith,
      of_actions-requests (block_searches h block) (loop_actions encode entries),
      of_requests-append (block_searches h block) (all_searches entries),
      of_actions-loop_actions encode entries,
    )

    pub weight-start :
        (encode : Block → String) (entries : List (ℕ × Block))
        → weight found made hop cost (start_pipeline (loop_actions encode entries))
          ≡ hops 9
            + hops (length entries)
            + of_outs found made hop cost (block_responses encode entries)
            + of_requests (all_searches entries)
    unfolding weight start_pipeline hops of_outs
    weight-start encode entries = omega (arith, of_actions-loop_actions encode entries)
