-- ===== src/Client/Ranges/Lowest.antt =====
-- GetLatest sends the lowest of its blocks only.
use terra_worker.Prelude.{ℕ, ◌≡◌, inl, inr, List, [], ◌∷◌, arith, ltb, All, Bool-cases}
use terra_worker.Structs.{Block}
use terra_worker.Api.Blocks.{BlocksMap, no_blocks, add_blocks}
use terra_worker.Api.Blocks.Order.{IsOn}
use terra_worker.Api.Blocks.Gathered.{IsCovered, add_blocks-IsCovered}
use terra_worker.Client.Ranges.{not_skipped}

-- the entries of the map for a list of blocks
abbrev pub entries_of : List Block → List (ℕ × Block)
entries_of [] = []
entries_of (b ∷ bs) = (b.height, b) ∷ entries_of bs

not_skipped-All :
    (m : BlocksMap) (bs : List Block)
    → All (IsCovered m) bs
    → All (λ e. e.1.height ≡ m.start_height) (not_skipped m (entries_of bs))
unfolding not_skipped
not_skipped-All m [] h = tt
not_skipped-All m (b ∷ bs) (h, hs) = elim (Bool-cases (ltb m.start_height b.height)) [
  | inl above ↦ rw above (not_skipped-All m bs hs)
  | inr at ↦ let low = h.1 in rw at (ground arith, not_skipped-All m bs hs)
]

-- Of blocks of one chain, gathered in a map, GetLatest does not skip only such that stand at the
-- lowest height of the map.
pub not_skipped-lowest :
    (chain : ℕ → Block) (bs : List Block)
    → All (IsOn chain) bs
    → All
        (λ e. e.1.height ≡ (add_blocks no_blocks bs).start_height)
        (not_skipped (add_blocks no_blocks bs) (entries_of bs))
not_skipped-lowest chain bs h =
    not_skipped-All (add_blocks no_blocks bs) bs (add_blocks-IsCovered chain bs h).0
