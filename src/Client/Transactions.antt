-- ===== src/Client/Transactions.antt =====
-- `GetTransactions` of client/client.go: the pages of a range, one after the other.
pub mod Complete
pub mod Failing
pub mod Delivers
pub mod Received
mod Examples
use mathlib.Core.Option
use Prim.Native.String.{◌++◌ as append}
use terra_worker.Prelude.{
  ℕ, String, Bool, true, false, Option, none, some, List, [], ◌∷◌, ◌++◌, ◌==◌, if◌then◌else◌,
}
use terra_worker.Go.Outcome.{GoError, Outcome, ok, err, panic, ◌>>=◌}
use terra_worker.Structs.{HeightRange}
use terra_worker.Client.Stream.{OutResp, TaskResponse, error_response}
use terra_worker.Client.Paging.{pages}

-- What the handler does: the responses that it puts into `out`, those that it sends itself, and
-- whether it closes `out` and waits for sendResp; otherwise it returns and cancels the context, on
-- which sendResp runs if it was started.
pub record Handled : Type 0 where
  pub produced : List OutResp
  pub direct : List TaskResponse
  pub started : Bool
  pub waits : Bool

-- one round of the loop, with what the rounds behind it give
unfoldable pub on_page :
    Outcome (List OutResp)
    → Outcome (List OutResp × Option GoError)
    → Outcome (List OutResp × Option GoError)
on_page (ok out) later = do rest ← later; ok (out ++ rest.0, rest.1)
on_page (err e) later = ok ([], some e)
on_page panic later = panic

-- The loop over the pages, up to the first that fails; `range` is getRangeSingular, which puts
-- nothing into `out` when it fails.
unfoldable pub run_pages :
    (HeightRange → Outcome (List OutResp))
    → List HeightRange
    → Outcome (List OutResp × Option GoError)
unfolding on_page
run_pages range [] = ok ([], none)
run_pages range (hr ∷ hrs) = on_page (range hr) (run_pages range hrs)

unfoldable pub behind_loop : (GoError → String) → String → List OutResp × Option GoError → Handled
behind_loop error_text id (out, none) = record {
  produced = out;
  direct = [];
  started = true;
  waits = true;
}
behind_loop error_text id (out, some e) = record {
  produced = out;
  direct = error_response id (error_text e) ∷ [];
  started = true;
  waits = false;
}

unfoldable pub handle_pages :
    (GoError → String)
    → String
    → (HeightRange → Outcome (List OutResp))
    → List HeightRange
    → Outcome Handled
unfolding behind_loop run_pages
handle_pages error_text id range hrs = do
  done ← run_pages range hrs
  ok (behind_loop error_text id done)

-- `none` where the fuel for the loop over the pages ran out. An end height of 0 makes the handler
-- call the method of a nil error.
unfoldable pub handle_range :
    (GoError → String)
    → String
    → (HeightRange → Outcome (List OutResp))
    → ℕ
    → ℕ
    → HeightRange
    → Option (Outcome Handled)
unfolding handle_pages
handle_range error_text id range fuel big_page hr =
    if hr.end_height == 0
    then some panic
    else Option.map (handle_pages error_text id range) (pages fuel big_page hr 0)

unfoldable pub get_transactions :
    (GoError → String)
    → String
    → (HeightRange → Outcome (List OutResp))
    → ℕ
    → ℕ
    → Outcome HeightRange
    → Option (Outcome Handled)
unfolding handle_range
get_transactions error_text id range fuel big_page (ok hr) =
    handle_range error_text id range fuel big_page hr
get_transactions error_text id range fuel big_page (err e) = some (
    ok (record {
      produced = [];
      direct = error_response id (append "cannot unmarshal payload: " (error_text e)) ∷ [];
      started = false;
      waits = false;
    }))
get_transactions error_text id range fuel big_page panic = some panic
