-- ===== src/Client/Paging.antt =====
-- The loops of client/client.go that cut a range of heights into pages: `GetTransactions` by
-- `bigPage`, `getRangeSingular` and `GetLatest` by `blockchainEndpointLimit`.
pub mod Cover
mod Examples
use terra_worker.Prelude.{
  ℕ, zero, suc, ◌*◌, Option, none, some, List, [], ◌∷◌, ltb, ◌==◌, add64, sub64, if◌then◌else◌,
}
use mathlib.Core.Option
use terra_worker.Structs.{HeightRange}

abbrev pub blockchain_endpoint_limit : ℕ
blockchain_endpoint_limit = 20

-- The range of round `i`: all sums are on uint64.
unfoldable pub page_range : ℕ → HeightRange → ℕ → HeightRange
unfolding add64 sub64
page_range size hr i =
    let start = add64 hr.start_height (i * size) in
    let last = sub64 (add64 start size) 1 in
    record hr {
      start_height = start;
      end_height = if ltb hr.end_height last then hr.end_height else last;
    }

-- The pages from round `i` on; the loop ends at the page that ends where the range ends. `none`
-- means that the fuel ran out.
unfoldable pub pages : ℕ → ℕ → HeightRange → ℕ → Option (List HeightRange)
pages zero size hr i = none
pages (suc fuel) size hr i =
    let page = page_range size hr i in
    let rest = pages fuel size hr (suc i) in
    if page.end_height == hr.end_height then some (page ∷ []) else Option.map (λ ps. page ∷ ps) rest
