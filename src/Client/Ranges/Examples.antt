-- ===== src/Client/Ranges/Examples.antt =====
-- The blocks of a range at concrete inputs, and the theorems applied to them.
use terra_worker.Prelude.{
  ℕ, ◌*◌, ◌+◌, ◌^◌, ◌<◌, ◌≡◌, refl, some, List, [], ◌∷◌, All, arith, length, get_elem?,
}
use terra_worker.Go.Float.{ceil, divide, nearest, round_even, scale_up, float64, scale_down}
use terra_worker.Structs.{Block}
use terra_worker.Api.Blocks.{no_blocks, add_blocks, add_block, lower}
use terra_worker.Client.Ranges.{page_size, to_be_done, block_searches, not_skipped}
use terra_worker.Client.Ranges.Cover.{page_of, block_searches-cover}
use terra_worker.Client.Ranges.Lowest.{entries_of, not_skipped-lowest}

-- a chain on which each block has 250 transactions
abbrev chain : ℕ → Block
chain height = record {
  hash = "AB";
  height = height;
  chain_id = "columbus-4";
  time = "2020-10-03T18:00:00Z";
  number_of_transactions = 250;
}

block_searches-cover_example :
    (get_elem? (block_searches 7 (chain 7)) 2 ≡ some (page_of 7 3))
    × (length (block_searches 7 (chain 7)) * page_size < 250 + page_size)
block_searches-cover_example = block_searches-cover 7 (chain 7) 249 (omega arith) (omega arith)

-- from 2^53 on, the conversion and the quotient are rounded
to_be_done_rounds : to_be_done (2 ^ 60 + 127) ≡ 11529215046068470
unfolding to_be_done ceil divide nearest round_even scale_up float64 scale_down
to_be_done_rounds = refl

abbrev blocks : List Block
blocks = chain 6 ∷ chain 5 ∷ []

not_skipped-lowest_example :
    All (λ e. e.1.height ≡ 5) (not_skipped (add_blocks no_blocks blocks) (entries_of blocks))
unfolding add_blocks add_block lower
not_skipped-lowest_example =
    not_skipped-lowest chain blocks ((omega arith, refl), ((omega arith, refl), tt))
