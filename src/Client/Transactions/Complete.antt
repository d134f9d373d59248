-- ===== src/Client/Transactions/Complete.antt =====
-- A request for transactions all of whose pages succeed.
use terra_worker.Prelude.{
  ℕ, ◌+◌, ◌<◌, ◌≤◌, ◌≡◌, refl, String, true, false, none, some, List, [], ◌∷◌, ◌++◌, ◌==◌, arith,
  All, two64,
}
use terra_worker.Go.Outcome.{GoError, Outcome, ok}
use terra_worker.Structs.{HeightRange}
use terra_worker.Client.Stream.{OutResp}
use terra_worker.Client.Paging.Cover.{heights, all_heights, IsPage, pages-cover}
use terra_worker.Client.Transactions.{
  on_page, run_pages, behind_loop, handle_pages, handle_range, get_transactions,
}

-- what the pages put into `out`, page after page
unfoldable pub all_outputs : (HeightRange → List OutResp) → List HeightRange → List OutResp
all_outputs output [] = []
all_outputs output (p ∷ ps) = output p ++ all_outputs output ps

module _ (error_text : GoError → String) (id : String)
    (range : HeightRange → Outcome (List OutResp)) (output : HeightRange → List OutResp) where
  run_pages-ok :
      ((p : HeightRange) → range p ≡ ok (output p))
      → (ps : List HeightRange) → run_pages range ps ≡ ok (all_outputs output ps, none)
  unfolding run_pages on_page all_outputs
  run_pages-ok succeeds [] = refl
  run_pages-ok succeeds (p ∷ ps) = rw (succeeds p, run_pages-ok succeeds ps) refl

  -- When every page of blocks succeeds, for a page size above 0 and a range whose start is not
  -- above its end, whose end is not 0 and far enough below 2^64, and fuel for each height,
  -- GetTransactions ends: it closes its channel and waits for sendResp, sends nothing itself, and
  -- has put into the channel what its pages give, in order, where the heights of the pages are
  -- those of the range, each once.
  get_transactions_complete :
      (fuel big_page : ℕ) (hr : HeightRange)
      → ((p : HeightRange) → range p ≡ ok (output p))
      → 0 < hr.end_height
      → 0 < big_page
      → hr.end_height + big_page < two64
      → hr.start_height ≤ hr.end_height
      → hr.end_height < hr.start_height + fuel
      → (ps : List HeightRange) × (all_heights ps ≡ heights hr)
        × All (IsPage big_page) ps
        × (get_transactions error_text id range fuel big_page (ok hr)
            ≡ some (
                ok (record {
                  produced = all_outputs output ps;
                  direct = [];
                  started = true;
                  waits = true;
                })))
  unfolding get_transactions handle_range handle_pages behind_loop
  get_transactions_complete fuel big_page hr succeeds above size far low enough =
      let (ps, runs, covered, small) = pages-cover big_page hr size far fuel low enough in
      let nonzero : (hr.end_height == 0) ≡ false = ground arith in
      (ps, covered, small, rw (nonzero, runs, run_pages-ok succeeds ps) refl)
