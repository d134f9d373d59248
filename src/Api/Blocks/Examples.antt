-- ===== src/Api/Blocks/Examples.antt =====
-- Blocks gathered at concrete inputs, and the theorems applied to them.
use mathlib.Core.List.{Permᴰ}
use terra_worker.Prelude.{ℕ, ◌%◌, ◌^◌, ◌≡◌, refl, List, [], ◌∷◌, All, arith}
use terra_worker.Structs.{Block}
use terra_worker.Api.Blocks.{no_blocks, add_blocks}
use terra_worker.Api.Blocks.Order.{IsOn, add_blocks-Perm}
use terra_worker.Api.Blocks.Gathered.{IsCovered, total, add_blocks-IsCovered}

-- a chain on which each block has three transactions
abbrev chain : ℕ → Block
chain height = record {
  hash = "AB";
  height = height;
  chain_id = "columbus-3";
  time = "2020-01-01T00:00:00Z";
  number_of_transactions = 3;
}

abbrev blocks : List Block
blocks = chain 7 ∷ chain 5 ∷ chain 6 ∷ []

blocks-IsOn : All (IsOn chain) blocks
blocks-IsOn = ((omega arith, refl), ((omega arith, refl), ((omega arith, refl), tt)))

add_blocks-Perm_example :
    add_blocks no_blocks blocks ≡ add_blocks no_blocks (chain 5 ∷ chain 7 ∷ chain 6 ∷ [])
add_blocks-Perm_example = add_blocks-Perm chain no_blocks (Permᴰ.swap refl refl) blocks-IsOn

add_blocks-IsCovered_example :
    All (IsCovered (add_blocks no_blocks blocks)) blocks
    × ((add_blocks no_blocks blocks).num_txs ≡ total blocks % 2 ^ 64)
add_blocks-IsCovered_example = add_blocks-IsCovered chain blocks blocks-IsOn
