-- ===== src/Client/Paging/Cover.antt =====
-- The pages of a range ask for each height of it once, in order.
use Prim.Native.Nat.{min}
use Prim.Native.Nat.add
use native.Mathlib.Nat.{add-zero}
use mathlib.Core.Bool.{false≢true}
use terra_worker.Prelude.{
  ℕ, zero, suc, ◌+◌, ◌-◌, ◌*◌, ◌≤◌, ◌<◌, ◌≡◌, ap, inl, inr, some, List, [], ◌∷◌, ◌++◌, sym, ◌∙◌,
  ◌≢◌, append-nil, arith, ◌==◌, ==_iff, two64, Bool-cases, All,
}
use terra_worker.Structs.{HeightRange}
use terra_worker.Client.Paging.{page_range, pages}

-- n, n + 1, …: so many heights
pub up_from : ℕ → ℕ → List ℕ
up_from n zero = []
up_from n (suc count) = n ∷ up_from (suc n) count

up_from-append : (n a b : ℕ) → up_from n a ++ up_from (n + a) b ≡ up_from n (a + b)
unfolding up_from
up_from-append n zero b = rw (add-zero, add.zero)
up_from-append n (suc a) b =
    let e : n + suc a ≡ suc n + a = omega arith in
    let e' : suc a + b ≡ suc (a + b) = omega arith in
    rw (e, e') (ap (λ l. n ∷ l) (up_from-append (suc n) a b))

-- the heights of a range, its end included
unfoldable pub heights : HeightRange → List ℕ
heights hr = up_from hr.start_height (suc hr.end_height - hr.start_height)

-- the heights of all pages, page after page
pub all_heights : List HeightRange → List ℕ
all_heights [] = []
all_heights (p ∷ ps) = heights p ++ all_heights ps

abbrev pub IsPage : ℕ → HeightRange → Type 0
IsPage size p = (p.start_height ≤ p.end_height) × (p.end_height < p.start_height + size)

module _ (size : ℕ) (hr : HeightRange) (pos : 0 < size) (fits : hr.end_height + size < two64) where
  -- without wrapping, round `i` starts `i` pages behind the start and is cut at the end
  start_height-page_range :
      (i : ℕ)
      → hr.start_height + i * size ≤ hr.end_height
      → (page_range size hr i).start_height ≡ hr.start_height + i * size
  unfolding page_range
  start_height-page_range i low = omega arith

  end_height-page_range :
      (i : ℕ)
      → hr.start_height + i * size ≤ hr.end_height
      → (page_range size hr i).end_height
        ≡ min hr.end_height (hr.start_height + i * size + size - 1)
  unfolding page_range
  end_height-page_range i low = ground arith

  page_range-IsPage :
      (i : ℕ) → hr.start_height + i * size ≤ hr.end_height → IsPage size (page_range size hr i)
  page_range-IsPage i low =
      omega (arith, start_height-page_range i low, end_height-page_range i low)

  heights-last :
      (i : ℕ)
      → hr.start_height + i * size ≤ hr.end_height
      → (page_range size hr i).end_height ≡ hr.end_height
      → all_heights (page_range size hr i ∷ [])
        ≡ up_from (hr.start_height + i * size) (suc hr.end_height - (hr.start_height + i * size))
  unfolding all_heights heights
  heights-last i low done = rw (append-nil, done, start_height-page_range i low)

  next_round :
      (i : ℕ)
      → hr.start_height + i * size ≤ hr.end_height
      → (page_range size hr i).end_height ≢ hr.end_height
      → hr.start_height + suc i * size ≤ hr.end_height
  next_round i low more = omega (arith, end_height-page_range i low)

  heights-next :
      (i : ℕ)
      → hr.start_height + suc i * size ≤ hr.end_height
      → heights (page_range size hr i)
          ++ up_from
              (hr.start_height + suc i * size)
              (suc hr.end_height - (hr.start_height + suc i * size))
        ≡ up_from (hr.start_height + i * size) (suc hr.end_height - (hr.start_height + i * size))
  unfolding heights
  heights-next i more =
      let low : hr.start_height + i * size ≤ hr.end_height = omega arith in
      let start = hr.start_height + i * size in
      let count : suc (page_range size hr i).end_height - start ≡ size =
        omega (arith, end_height-page_range i low) in
      let next : hr.start_height + suc i * size ≡ start + size = omega arith in
      let rest = suc hr.end_height - (start + size) in
      let whole : suc hr.end_height - start ≡ size + rest = omega arith in
      rw (start_height-page_range i low, count, next, whole) (up_from-append start size rest)

  pages-from :
      (fuel i : ℕ)
      → hr.start_height + i * size ≤ hr.end_height
      → hr.end_height < hr.start_height + i * size + fuel
      → (ps : List HeightRange) × (pages fuel size hr i ≡ some ps)
        × (all_heights ps
            ≡ up_from
                (hr.start_height + i * size)
                (suc hr.end_height - (hr.start_height + i * size)))
        × All (IsPage size) ps
  unfolding pages all_heights
  pages-from zero i low enough = absurd (omega arith)
  pages-from (suc fuel) i low enough =
      elim (Bool-cases ((page_range size hr i).end_height == hr.end_height)) [
        | inl done ↦ (
          page_range size hr i ∷ [],
          rw done,
          heights-last i low ((==_iff _ _).0 done),
          (page_range-IsPage i low, tt),
        )
        | inr more ↦
            let low' = next_round i low (λ e. false≢true (sym more ∙ (==_iff _ _).1 e)) in
            let (ps, runs, covered, small) = pages-from fuel (suc i) low' (omega arith) in
            (
              page_range size hr i ∷ ps,
              rw (more, runs),
              rw covered (heights-next i low'),
              (page_range-IsPage i low, small),
            )
      ]

  -- For a page size above 0, a range whose start is not above its end, an end far enough below
  -- 2^64, and fuel for each height, the loop ends, the heights of its pages one after the other
  -- are those of the range, each once, and each page has at least one height and at most the page
  -- size.
  pub pages-cover :
      (fuel : ℕ)
      → hr.start_height ≤ hr.end_height
      → hr.end_height < hr.start_height + fuel
      → (ps : List HeightRange) × (pages fuel size hr 0 ≡ some ps)
        × (all_heights ps ≡ heights hr)
        × All (IsPage size) ps
  unfolding heights
  pages-cover fuel low enough =
      let (ps, runs, covered, small) = pages-from fuel 0 (omega arith) (omega arith) in
      let first : hr.start_height + 0 * size ≡ hr.start_height = omega arith in
      (ps, runs, rw first at covered, small)
