-- ===== src/Client/Ranges/Fetched.antt =====
-- A range whose blocks are returned lost none of its pages.
use terra_worker.Prelude.{ℕ, String, List, [], ◌∷◌, ◌++◌, ◌≡◌, refl, sym, ap, ◌∙◌}
use terra_worker.Go.Outcome.{GoError, Outcome, ok, err, panic, ok_of_bind, ok-injective}
use terra_worker.Structs.{HeightRange}
use terra_worker.Api.Blocks.{BlocksMap, no_blocks, Node, get_blocks_meta}
use terra_worker.Client.Ranges.{batch, fetch_pages, without_errors, range_blocks}

-- Each page was fetched, from the map that the page before it left.
pub data IsFetched (node : Node) (limit : ℕ)
    : BlocksMap → List HeightRange → BlocksMap → Type 0 where
  nothing : {m : BlocksMap} → IsFetched node limit m [] m
  page :
      {m : BlocksMap} {hr : HeightRange} {hrs : List HeightRange} {first last : BlocksMap}
      → get_blocks_meta node hr limit m ≡ ok first
      → IsFetched node limit first hrs last
      → IsFetched node limit m (hr ∷ hrs) last

append-IsEmpty {ℓ} : {A : Type ℓ} (xs ys : List A) → xs ++ ys ≡ [] → (xs ≡ []) × (ys ≡ [])
append-IsEmpty [] ys h = (refl, h)
append-IsEmpty (x ∷ xs) ys h = cc

batch-IsFetched :
    (m : BlocksMap) (o : Outcome BlocksMap) (r : BlocksMap × List GoError)
    → batch m o ≡ ok r
    → r.1 ≡ []
    → o ≡ ok r.0
unfolding batch
batch-IsFetched m (ok m') r h none_failed = ap (λ o. o) cc
batch-IsFetched m (err e) r h none_failed = cc
batch-IsFetched m panic r h none_failed = cc

fetch_pages-IsFetched :
    (node : Node) (limit : ℕ) (m : BlocksMap) (hrs : List HeightRange)
    (r : BlocksMap × List GoError)
    → fetch_pages node limit m hrs ≡ ok r
    → r.1 ≡ []
    → IsFetched node limit m hrs r.0
unfolding fetch_pages
fetch_pages-IsFetched node limit m [] r h none_failed =
    let e : (m, []) ≡ r = ok-injective (m, []) r h in rw (sym e) nothing
fetch_pages-IsFetched node limit m (hr ∷ hrs) r h none_failed =
    let (first, got, later) = ok_of_bind (batch m (get_blocks_meta node hr limit m)) _ h in
    let (rest, ran, whole) = ok_of_bind (fetch_pages node limit first.0 hrs) _ later in
    let e : (rest.0, first.1 ++ rest.1) ≡ r = ok-injective (rest.0, first.1 ++ rest.1) r whole in
    let (none_first, none_later) = append-IsEmpty first.1 rest.1 (ap (λ p. p.1) e ∙ none_failed) in
    rw (sym e) (
      page (batch-IsFetched m _ first got none_first)
        (fetch_pages-IsFetched node limit first.0 hrs rest ran none_later))

without_errors-ok :
    (error_text : GoError → String) (r : BlocksMap × List GoError) (m : BlocksMap)
    → without_errors error_text r ≡ ok m
    → (r.0 ≡ m) × (r.1 ≡ [])
unfolding without_errors
without_errors-ok error_text (m, []) m' h = (ok-injective _ _ h, refl)
without_errors-ok error_text (m, e ∷ es) m' h = cc

-- When the blocks of a range are returned, each of its pages was fetched without an error, from
-- the map that the page before it left, and the map returned is that of the last one.
pub range_blocks-IsFetched :
    (error_text : GoError → String) (node : Node) (ranges : List HeightRange) (m : BlocksMap)
    → range_blocks error_text node ranges ≡ ok m
    → IsFetched node 0 no_blocks ranges m
unfolding range_blocks
range_blocks-IsFetched error_text node ranges m h =
    let (fetched, ran, clean) = ok_of_bind (fetch_pages node 0 no_blocks ranges) _ h in
    let (left, none_failed) = without_errors-ok error_text fetched m clean in
    rw left at (fetch_pages-IsFetched node 0 no_blocks ranges fetched ran none_failed)
