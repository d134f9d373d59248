-- ===== src/Client/Paging/Examples.antt =====
-- A range of heights cut into pages, and the theorem applied to it.
use terra_worker.Prelude.{ℕ, ◌≡◌, refl, some, List, [], ◌∷◌, arith, All}
use terra_worker.Structs.{HeightRange}
use terra_worker.Client.Paging.{page_range, pages}
use terra_worker.Client.Paging.Cover.{heights, all_heights, IsPage, pages-cover}

abbrev range : ℕ → ℕ → HeightRange
range a b = record { start_height = a; end_height = b; network = "terra"; chain_id = "columbus-4" }

three_pages :
    pages 50 20 (range 100 145) 0 ≡ some (range 100 119 ∷ range 120 139 ∷ range 140 145 ∷ [])
unfolding pages page_range
three_pages = refl

pages-cover_example :
    (ps : List HeightRange) × (pages 50 20 (range 100 145) 0 ≡ some ps)
    × (all_heights ps ≡ heights (range 100 145))
    × All (IsPage 20) ps
pages-cover_example =
    pages-cover 20 (range 100 145) (omega arith) (omega arith) 50 (omega arith) (omega arith)
