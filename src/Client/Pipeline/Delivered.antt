-- ===== src/Client/Pipeline/Delivered.antt =====
-- What the goroutines of a range deliver, whichever way their steps interleave.
use mathlib.Core.List.{Permᴰ}
use terra_worker.Prelude.{
  ℕ, zero, suc, ◌+◌, String, Bool, ◌&&◌, ◌↔◌, List, [], ◌∷◌, ◌++◌, map, ◌≡◌, refl, ap, arith,
  str_eq, eq_iff, length, true, if◌then◌else◌,
}
use terra_worker.Prelude.Bags.{count, count-append, Perm_of_count}
use terra_worker.Go.Outcome.{Outcome, ok}
use terra_worker.Structs.{Block}
use terra_worker.Api.Search.{ToGet}
use terra_worker.Api.Transactions.{TxResponse}
use terra_worker.Client.Stream.{OutResp}
use terra_worker.Client.Ranges.{all_searches}
use terra_worker.Client.Pipeline.{loop_actions, returned, Pipeline, start_pipeline, Run}
use terra_worker.Client.Pipeline.Ordered.{Run-IsOrderly}
use terra_worker.Client.Pipeline.Weights.{of_found, of_get, of_outs, Run-weight}
use terra_worker.Client.Pipeline.Settled.{
  block_responses, all_found, of_requests, hops, weight-start, weight-returned,
}

same_response : OutResp → OutResp → Bool
same_response a b = str_eq a.type b.type && str_eq a.payload b.payload

same_response_iff : (a b : OutResp) → (same_response a b ≡ true) ↔ (a ≡ b)
unfolding same_response
same_response_iff a b = ground (arith, eq_iff a.type b.type, eq_iff a.payload b.payload)

module _ {search : ToGet → Outcome (List TxResponse)} {convert : TxResponse → Outcome OutResp}
    (found : ToGet → List TxResponse) (made : TxResponse → OutResp)
    (finds : (g : ToGet) → search g ≡ ok (found g))
    (makes : (tx : TxResponse) → convert tx ≡ ok (made tx)) where
  -- the weight by which a response is counted
  abbrev once : OutResp → OutResp → ℕ
  once a r = if same_response a r then 1 else 0

  of_outs-count :
      (a : OutResp) (rs : List OutResp)
      → of_outs found made 0 (once a) rs ≡ count same_response same_response_iff a rs
  unfolding of_outs count
  of_outs-count a [] = refl
  of_outs-count a (r ∷ rs) = ap (λ n. once a r + n) (of_outs-count a rs)

  of_found-count :
      (a : OutResp) (txs : List TxResponse)
      → of_found found made 0 (once a) txs ≡ count same_response same_response_iff a (map made txs)
  unfolding of_found count
  of_found-count a [] = refl
  of_found-count a (tx ∷ txs) = omega (arith, of_found-count a txs)

  of_found-append :
      (a : OutResp) (xs ys : List TxResponse)
      → of_found found made 0 (once a) (xs ++ ys)
        ≡ of_found found made 0 (once a) xs + of_found found made 0 (once a) ys
  unfolding of_found
  of_found-append a [] ys = omega arith
  of_found-append a (x ∷ xs) ys = omega (arith, of_found-append a xs ys)

  of_requests-count :
      (a : OutResp) (gs : List ToGet)
      → of_requests found made 0 (once a) gs ≡ of_found found made 0 (once a) (all_found found gs)
  unfolding of_requests of_get all_found of_found
  of_requests-count a [] = refl
  of_requests-count a (g ∷ gs) =
      omega (arith, of_requests-count a gs, of_found-append a (found g) (all_found found gs))

  hops-free : (a : OutResp) (n : ℕ) → hops found made 0 (once a) n ≡ 0
  unfolding hops
  hops-free a zero = refl
  hops-free a (suc n) = omega (arith, hops-free a n)

  pub Run-Perm :
      (encode : Block → String) (entries : List (ℕ × Block)) {n : ℕ} {s : Pipeline}
      → Run search convert (start_pipeline (loop_actions encode entries)) n s
      → s.main ≡ returned
      → Permᴰ s.out
          (block_responses encode entries ++ map made (all_found found (all_searches entries)))
  Run-Perm encode entries {n} {s} r at = Perm_of_count same_response same_response_iff s.out _ λ a.
      omega (
        arith,
        count-append same_response same_response_iff a (block_responses encode entries)
            (map made (all_found found (all_searches entries))),
        weight-returned found made 0 (once a) s (Run-IsOrderly _ r) at,
        weight-start found made 0 (once a) encode entries,
        Run-weight found made 0 (once a) search convert finds makes r,
        hops-free a 9,
        hops-free a (length entries),
        of_requests-count a (all_searches entries),
        of_found-count a (all_found found (all_searches entries)),
        of_outs-count a s.out,
        of_outs-count a (block_responses encode entries),
      )
