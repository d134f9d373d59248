-- ===== src/Client/Ranges/Cover.antt =====
-- Every transaction of a block lies on a page that is searched for.
use terra_worker.Prelude.{
  ℕ, zero, suc, ◌+◌, ◌*◌, ◌/◌, ◌^◌, ◌<◌, ◌≡◌, refl, ap, ◌∙◌, true, arith, ltb, length, get_elem?,
  some,
}
use terra_worker.Go.Float.Exact.{ceil-divide-hundred}
use terra_worker.Structs.{Block}
use terra_worker.Api.Search.{ToGet}
use terra_worker.Client.Ranges.{page_size, to_be_done, block_pages, block_searches}

-- the page of a block's transactions that a number names
abbrev pub page_of : ℕ → ℕ → ToGet
page_of height page = record { height = height; page = page; per_page = page_size }

get-block_pages :
    (height i left k : ℕ)
    → k < left
    → get_elem? (block_pages height i left) k ≡ some (page_of height (suc (i + k)))
unfolding block_pages
get-block_pages height i zero k h = absurd (omega arith)
get-block_pages height i (suc left) zero h = ap (λ n. some (page_of height (suc n))) (omega arith)
get-block_pages height i (suc left) (suc k) h =
    get-block_pages height (suc i) left k (omega arith)
    ∙ ap (λ n. some (page_of height (suc n))) (omega arith)

length-block_pages : (height i left : ℕ) → length (block_pages height i left) ≡ left
unfolding block_pages
length-block_pages height i zero = refl
length-block_pages height i (suc left) = ap suc (length-block_pages height (suc i) left)

-- For each transaction, counted from 0, of a block with fewer than 2^53 of them, the page of 100
-- that it lies on is searched for, under its number, which counts from 1, and there are fewer than
-- 100 places behind the last transaction on the pages that are searched for: the conversion to
-- float64, the division and math.Ceil give the exact number of pages.
pub block_searches-cover :
    (h : ℕ) (block : Block) (j : ℕ)
    → block.number_of_transactions < 2 ^ 53
    → j < block.number_of_transactions
    → (get_elem? (block_searches h block) (j / 100) ≡ some (page_of h (suc (j / 100))))
      × (length (block_searches h block) * page_size < block.number_of_transactions + page_size)
unfolding block_searches to_be_done
block_searches-cover h block j small lt =
    let some_txs : ltb 0 block.number_of_transactions ≡ true = ground arith in
    let exact = ceil-divide-hundred block.number_of_transactions small in
    (
      rw (some_txs, exact)
          (get-block_pages h 0 _ (j / 100) (omega arith)
            ∙ ap (λ n. some (page_of h (suc n))) (omega arith)),
      rw (some_txs, length-block_pages, exact) (omega arith),
    )
