-- ===== src/Client/Transactions/Failing.antt =====
-- A request for transactions one of whose pages fails.
use terra_worker.Prelude.{
  ℕ, String, true, false, some, List, [], ◌∷◌, ◌++◌, ◌≡◌, refl, sym, ap, ◌∙◌, All,
}
use terra_worker.Go.Outcome.{GoError, Outcome, ok, err}
use terra_worker.Structs.{HeightRange}
use terra_worker.Client.Stream.{
  OutResp, Sender, start, Reach, numbered, end_response, error_response,
}
use terra_worker.Client.Stream.Transcript.{ending, Reach-IsTranscript}
use terra_worker.Client.Transactions.{on_page, run_pages, behind_loop, handle_pages}
use terra_worker.Client.Transactions.Complete.{all_outputs}

ends_too :
    {id : String} {capacity : ℕ} {s : Sender} (produced : List OutResp)
    → Reach id capacity start s
    → s.produced ≡ produced
    → s.ended ≡ true
    → (received lost : List OutResp) × (produced ≡ received ++ lost)
      × (s.sent ≡ numbered id 0 received ++ end_response id s.order ∷ [])
unfolding ending
ends_too {id} {s = s} produced r all ended =
    let h = Reach-IsTranscript r in
    (
      h.received,
      s.out,
      sym all ∙ h.kept,
      h.told ∙ ap (λ b. numbered id 0 h.received ++ ending id s.order b) ended,
    )

module _ (error_text : GoError → String) (id : String)
    (range : HeightRange → Outcome (List OutResp)) (output : HeightRange → List OutResp) where
  run_pages-err :
      (before : List HeightRange) (failing : HeightRange) (behind : List HeightRange) (e : GoError)
      → All (λ p. range p ≡ ok (output p)) before
      → range failing ≡ err e
      → run_pages range (before ++ failing ∷ behind) ≡ ok (all_outputs output before, some e)
  unfolding run_pages on_page all_outputs
  run_pages-err [] failing behind e succeeds fails = rw fails refl
  run_pages-err (p ∷ before) failing behind e (succeeds, later) fails =
      rw (succeeds, run_pages-err before failing behind e later fails) refl

  -- When a page of GetTransactions fails behind pages that succeed, the pages behind it are not
  -- fetched, the handler sends a final response with the error, and sendResp, in every state in
  -- which it has ended and all that the handler produced was put into the channel, has sent a part
  -- of it, from the start on, and a second final response, the END.
  pub handle_pages-twice :
      (before : List HeightRange) (failing : HeightRange) (behind : List HeightRange) (e : GoError)
      → All (λ p. range p ≡ ok (output p)) before
      → range failing ≡ err e
      → (capacity : ℕ) (s : Sender) → Reach id capacity start s
      → s.produced ≡ all_outputs output before
      → s.ended ≡ true
      → (handle_pages error_text id range (before ++ failing ∷ behind)
          ≡ ok (record {
            produced = s.produced;
            direct = error_response id (error_text e) ∷ [];
            started = true;
            waits = false;
          }))
        × (received lost : List OutResp) × (all_outputs output before ≡ received ++ lost)
        × (s.sent ≡ numbered id 0 received ++ end_response id s.order ∷ [])
  unfolding handle_pages behind_loop
  handle_pages-twice before failing behind e succeeds fails capacity s r all ended =
      let (received, lost, parts, told) = ends_too _ r all ended in
      (
        rw (run_pages-err before failing behind e succeeds fails, all) refl,
        received,
        lost,
        parts,
        told,
      )
