-- ===== src/Client/Latest/Schedule.antt =====
-- The pages of GetLatest, which depend on what its loop reads while the fetches run.
use terra_worker.Prelude.{
  ℕ, zero, suc, ◌+◌, ◌≤◌, ◌<◌, ◌≡◌, refl, ap, ◌∙◌, true, false, some, List, [], ◌∷◌, All, arith,
  two64, ◌==◌, add64, sub64,
}
use terra_worker.Structs.{HeightRange}
use terra_worker.Client.Paging.{blockchain_endpoint_limit, page_range, pages}
use terra_worker.Client.Paging.Cover.{heights, all_heights, IsPage, pages-cover}
use terra_worker.Client.Latest.{LatestDataRequest, latest_range, Reads, latest_page, latest_pages}

-- the reads of a round during which the lowest height of the map stays the same
abbrev pub still : ℕ → Reads
still low = record { compared = low; assigned = low; tested = low }

abbrev pub from_to : LatestDataRequest → ℕ → ℕ → HeightRange
from_to ldr start last = record {
  start_height = start;
  end_height = last;
  network = ldr.network;
  chain_id = ldr.chain_id;
}

latest_pages-eq-pages :
    (ldr : LatestDataRequest) (low fuel start i : ℕ)
    → latest_pages ldr (λ i. still low) fuel start i
      ≡ pages fuel blockchain_endpoint_limit (from_to ldr start low) i
unfolding latest_pages latest_page latest_range pages page_range
latest_pages-eq-pages ldr low zero start i = refl
latest_pages-eq-pages ldr low (suc fuel) start i =
    rw (latest_pages-eq-pages ldr low fuel start (suc i)) refl

-- Where the lowest height of the map stays the same while GetLatest starts its fetches, for a
-- starting height not above it, far enough below 2^64, and fuel for each height, the loop ends,
-- the heights of its pages one after the other are those from the starting height to the lowest
-- height, each once, and each page has at least one height and at most the limit of the endpoint.
pub latest_pages-cover :
    (ldr : LatestDataRequest) (low fuel start : ℕ)
    → start ≤ low
    → low + blockchain_endpoint_limit < two64
    → low < start + fuel
    → (ps : List HeightRange) × (latest_pages ldr (λ i. still low) fuel start 0 ≡ some ps)
      × (all_heights ps ≡ heights (from_to ldr start low))
      × All (IsPage blockchain_endpoint_limit) ps
latest_pages-cover ldr low fuel start up far enough =
    let (ps, runs, covered, small) =
      pages-cover blockchain_endpoint_limit (from_to ldr start low) (omega arith) far fuel up
        enough in
    (ps, latest_pages-eq-pages ldr low fuel start 0 ∙ runs, covered, small)

from_to-eq :
    (ldr : LatestDataRequest) {a b c d : ℕ} → a ≡ c → b ≡ d → from_to ldr a b ≡ from_to ldr c d
from_to-eq ldr {b = b} {c = c} e e' = ap (λ a. from_to ldr a b) e ∙ ap (λ b. from_to ldr c b) e'

-- The lowest height until the fetch of the first page has ended, which is then its start.
abbrev pub after_first : ℕ → ℕ → ℕ → Reads
after_first low start zero = still low
after_first low start (suc i) = still start

first_page :
    (ldr : LatestDataRequest) (low start : ℕ)
    → start + 20 ≤ low
    → low < two64
    → latest_page ldr start (still low) 0 ≡ from_to ldr start (start + 19)
unfolding latest_page latest_range add64 sub64
first_page ldr low start above far =
    let e : (latest_page ldr start (still low) 0).start_height ≡ start = omega arith in
    let e' : (latest_page ldr start (still low) 0).end_height ≡ start + 19 = ground arith in
    from_to-eq ldr e e'

second_page :
    (ldr : LatestDataRequest) (low start : ℕ)
    → start + 40 ≤ low
    → low < two64
    → latest_page ldr start (still start) 1 ≡ from_to ldr (start + 20) start
unfolding latest_page latest_range add64 sub64
second_page ldr low start above far =
    let e : (latest_page ldr start (still start) 1).start_height ≡ start + 20 = omega arith in
    let e' : (latest_page ldr start (still start) 1).end_height ≡ start = ground arith in
    from_to-eq ldr e e'

-- Where the fetch of the first page ends before the loop of GetLatest builds the second one, so
-- that from there on the loop reads the start of the first page as the lowest height, and the
-- lowest height before was 40 or more above that start, the loop ends after two pages: the second
-- one ends below where it begins, and no height behind it is asked for.
pub latest_pages_stop :
    (ldr : LatestDataRequest) (low fuel start : ℕ)
    → start + 40 ≤ low
    → low < two64
    → latest_pages ldr (after_first low start) (suc (suc fuel)) start 0
      ≡ some (from_to ldr start (start + 19) ∷ from_to ldr (start + 20) start ∷ [])
unfolding latest_pages
latest_pages_stop ldr low fuel start above far =
    let more : (start + 19 == low) ≡ false = ground arith in
    let done : (start == start) ≡ true = ground arith in
    rw (first_page ldr low start (omega arith) far, more, second_page ldr low start above far, done)
      refl
