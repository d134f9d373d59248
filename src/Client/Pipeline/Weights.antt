-- ===== src/Client/Pipeline/Weights.antt =====
-- What each step moves: every step takes one `hop` from the weight of a state, and with hops of
-- weight 0 the weight of the responses stays the same.
use terra_worker.Prelude.{ℕ, ◌+◌, ◌*◌, List, [], ◌∷◌, ◌++◌, ◌≡◌, refl, sym, ap, ◌∙◌, arith}
use terra_worker.Go.Outcome.{Outcome, ok, ok-injective}
use terra_worker.Api.Search.{ToGet}
use terra_worker.Api.Transactions.{TxResponse}
use terra_worker.Client.Stream.{OutResp}
use terra_worker.Client.Pipeline.{
  Action, emit, request, Main, walking, closed_to_get, closed_tx_in, returned, Worker, waiting,
  sending, stopped, Converter, receiving, holding, finished, Pipeline, Step, put_block, put_search,
  close_to_get, take, put_tx, all_put, stop, close_tx_in, receive, put_converted, finish, leave,
  Run, here, next,
}

module _ (found : ToGet → List TxResponse) (made : TxResponse → OutResp) (hop : ℕ)
    (cost : OutResp → ℕ) where
  unfoldable pub of_outs : List OutResp → ℕ
  of_outs [] = 0
  of_outs (r ∷ rs) = cost r + of_outs rs

  -- transactions that were found, but not yet put into `txIn`
  unfoldable pub of_found : List TxResponse → ℕ
  of_found [] = 0
  of_found (tx ∷ txs) = hop + (hop + (hop + cost (made tx))) + of_found txs

  unfoldable pub of_put : List TxResponse → ℕ
  of_put [] = 0
  of_put (tx ∷ txs) = hop + (hop + cost (made tx)) + of_put txs

  unfoldable pub of_get : ToGet → ℕ
  of_get g = hop + (hop + of_found (found g))

  unfoldable pub of_gets : List ToGet → ℕ
  unfolding of_get
  of_gets [] = 0
  of_gets (g ∷ gs) = of_get g + of_gets gs

  unfoldable pub of_actions : List Action → ℕ
  unfolding of_get
  of_actions [] = 0
  of_actions (emit r ∷ todo) = hop + cost r + of_actions todo
  of_actions (request g ∷ todo) = hop + of_get g + of_actions todo

  unfoldable pub of_main : Main → ℕ
  of_main (walking todo) = hop + (hop + hop) + of_actions todo
  of_main closed_to_get = hop + hop
  of_main closed_tx_in = hop
  of_main returned = 0

  unfoldable pub of_worker : Worker → ℕ
  of_worker waiting = hop
  of_worker (sending txs) = hop + (hop + of_found txs)
  of_worker stopped = 0

  unfoldable pub of_workers : List Worker → ℕ
  of_workers [] = 0
  of_workers (w ∷ ws) = of_worker w + of_workers ws

  unfoldable pub of_converter : Converter → ℕ
  of_converter receiving = hop
  of_converter (holding r) = hop + (hop + cost r)
  of_converter finished = 0

  unfoldable pub weight : Pipeline → ℕ
  unfolding of_main of_gets of_workers of_worker of_put of_converter
  weight s =
      of_main s.main
      + of_gets s.to_get
      + of_workers s.workers
      + of_put s.tx_in
      + of_converter s.converter
      + of_outs s.out

  of_outs-append : (rs ss : List OutResp) → of_outs (rs ++ ss) ≡ of_outs rs + of_outs ss
  unfolding of_outs
  of_outs-append [] ss = omega arith
  of_outs-append (r ∷ rs) ss = omega (arith, of_outs-append rs ss)

  of_put-append : (rs ss : List TxResponse) → of_put (rs ++ ss) ≡ of_put rs + of_put ss
  unfolding of_put
  of_put-append [] ss = omega arith
  of_put-append (r ∷ rs) ss = omega (arith, of_put-append rs ss)

  of_gets-append : (rs ss : List ToGet) → of_gets (rs ++ ss) ≡ of_gets rs + of_gets ss
  unfolding of_gets
  of_gets-append [] ss = omega arith
  of_gets-append (r ∷ rs) ss = omega (arith, of_gets-append rs ss)

  of_workers-append : (rs ss : List Worker) → of_workers (rs ++ ss) ≡ of_workers rs + of_workers ss
  unfolding of_workers
  of_workers-append [] ss = omega arith
  of_workers-append (r ∷ rs) ss = omega (arith, of_workers-append rs ss)

  -- a worker that is replaced
  of_workers-eq :
      (ws before behind : List Worker) (w : Worker)
      → ws ≡ before ++ w ∷ behind
      → of_workers ws ≡ of_worker w + of_workers (before ++ behind)
  unfolding of_workers
  of_workers-eq ws before behind w e = omega (
    arith,
    ap of_workers e,
    of_workers-append before (w ∷ behind),
    of_workers-append before behind,
  )

  module _ (search : ToGet → Outcome (List TxResponse)) (convert : TxResponse → Outcome OutResp)
      (finds : (g : ToGet) → search g ≡ ok (found g))
      (makes : (tx : TxResponse) → convert tx ≡ ok (made tx)) where
    pub Step-weight : {s t : Pipeline} → Step search convert s t → weight s ≡ hop + weight t
    unfolding weight of_outs of_actions of_found
    Step-weight {s = s} (put_block r todo at) =
        omega (arith, ap of_main at, of_outs-append s.out (r ∷ []))
    Step-weight {s = s} (put_search g todo at room) =
        omega (arith, ap of_main at, of_gets-append s.to_get (g ∷ []))
    Step-weight (close_to_get at) = omega (arith, ap of_main at)
    Step-weight {s = s} (take before behind g rest txs at from it) = omega (
      arith,
      of_workers-eq s.workers before behind waiting at,
      of_workers-eq (before ++ sending txs ∷ behind) before behind (sending txs) refl,
      ap of_gets from,
      ap of_found (ok-injective _ _ (sym (finds g) ∙ it)),
    )
    Step-weight {s = s} (put_tx before behind tx txs at room) = omega (
      arith,
      of_workers-eq s.workers before behind (sending (tx ∷ txs)) at,
      of_workers-eq (before ++ sending txs ∷ behind) before behind (sending txs) refl,
      of_put-append s.tx_in (tx ∷ []),
    )
    Step-weight {s = s} (all_put before behind at) = omega (
      arith,
      of_workers-eq s.workers before behind (sending []) at,
      of_workers-eq (before ++ waiting ∷ behind) before behind waiting refl,
    )
    Step-weight {s = s} (stop before behind at none_left closed) = omega (
      arith,
      of_workers-eq s.workers before behind waiting at,
      of_workers-eq (before ++ stopped ∷ behind) before behind stopped refl,
    )
    Step-weight (close_tx_in at all) = omega (arith, ap of_main at)
    Step-weight (receive tx rest r at from it) = omega (
      arith,
      ap of_converter at,
      ap of_put from,
      ap cost (ok-injective _ _ (sym (makes tx) ∙ it)),
    )
    Step-weight {s = s} (put_converted r at) =
        omega (arith, ap of_converter at, of_outs-append s.out (r ∷ []))
    Step-weight (finish at none_left closed) = omega (arith, ap of_converter at)
    Step-weight (leave at done) = omega (arith, ap of_main at)

    pub Run-weight :
        {s t : Pipeline} {n : ℕ} → Run search convert s n t → weight s ≡ n * hop + weight t
    Run-weight here = omega arith
    Run-weight (next {n} r st) = grind (arith, Run-weight r, Step-weight st)
