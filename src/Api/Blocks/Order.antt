-- ===== src/Api/Blocks/Order.antt =====
-- The order in which the answers arrive does not matter.
use mathlib.Core.List.{Permᴰ}
use mathlib.Core.Path.{subst}
use terra_worker.Prelude.{
  ℕ, ◌<◌, ◌≡◌, refl, sym, ap, ◌∙◌, inl, inr, Option, some, List, ◌==◌, arith, Bool-cases, All,
  add64,
}
use terra_worker.Structs.{Block}
use terra_worker.Api.Blocks.{BlocksMap, with_block, lower, higher, add_block, add_blocks}

lower_comm : (start a b : ℕ) → 0 < a → 0 < b → lower (lower start a) b ≡ lower (lower start b) a
unfolding lower
lower_comm start a b ha hb = ground arith

higher_comm : (last a b : ℕ) → higher (higher last a) b ≡ higher (higher last b) a
unfolding higher
higher_comm last a b = ground arith

sum_comm : (n a b : ℕ) → add64 (add64 n a) b ≡ add64 (add64 n b) a
unfolding add64
sum_comm n a b = omega arith

module _ (chain : ℕ → Block) where
  -- the block that the chain has at its height, which is not 0
  abbrev pub IsOn : Block → Type 0
  IsOn b = (0 < b.height) × (chain b.height ≡ b)

  with_block_comm :
      (blocks : ℕ → Option Block) (a b : Block) (height : ℕ)
      → IsOn a
      → IsOn b
      → with_block (with_block blocks a) b height ≡ with_block (with_block blocks b) a height
  unfolding with_block
  with_block_comm blocks a b height (ha, ea) (hb, eb) = elim (Bool-cases (height == a.height)) [
    | inl at_a ↦ elim (Bool-cases (height == b.height)) [
      | inl at_b ↦
          let same : a.height ≡ b.height = ground arith in
          rw (at_a, at_b) (ap some (sym eb ∙ ap chain (sym same) ∙ ea))
      | inr not_b ↦ rw (at_a, not_b) refl
    ]
    | inr not_a ↦ rw not_a refl
  ]

  add_block_comm :
      (m : BlocksMap) (a b : Block)
      → IsOn a
      → IsOn b
      → add_block (add_block m a) b ≡ add_block (add_block m b) a
  unfolding add_block
  add_block_comm m a b ha hb = λ i. record {
    blocks = λ height. with_block_comm m.blocks a b height ha hb i;
    num_txs = sum_comm m.num_txs a.number_of_transactions b.number_of_transactions i;
    start_height = lower_comm m.start_height a.height b.height ha.0 hb.0 i;
    end_height = higher_comm m.end_height a.height b.height i;
  }

  IsOn-Perm : {bs cs : List Block} → Permᴰ bs cs → All IsOn bs → All IsOn cs
  IsOn-Perm Permᴰ.nil h = tt
  IsOn-Perm (Permᴰ.cons e p) (h, hs) = (subst IsOn e h, IsOn-Perm p hs)
  IsOn-Perm (Permᴰ.swap ea eb) (ha, (hb, hs)) = (subst IsOn eb hb, (subst IsOn ea ha, hs))
  IsOn-Perm (Permᴰ.trans p q) h = IsOn-Perm q (IsOn-Perm p h)

  -- Where the blocks are those of one chain, at heights above 0, the map of blocks, its count of
  -- transactions and its two heights are the same in whichever order the blocks are added, so in
  -- whichever order the concurrent answers take the lock.
  pub add_blocks-Perm :
      {bs cs : List Block} (m : BlocksMap)
      → Permᴰ bs cs
      → All IsOn bs
      → add_blocks m bs ≡ add_blocks m cs
  unfolding add_blocks
  add_blocks-Perm m Permᴰ.nil h = refl
  add_blocks-Perm m (Permᴰ.cons {a = a} {l₂ = cs} e p) (h, hs) =
      add_blocks-Perm (add_block m a) p hs ∙ ap (λ b. add_blocks (add_block m b) cs) e
  add_blocks-Perm m (Permᴰ.swap {a = a} {b = b} {l = bs} ea eb) (ha, (hb, hs)) =
      rw (sym ea, sym eb) (ap (λ n. add_blocks n bs) (add_block_comm m a b ha hb))
  add_blocks-Perm m (Permᴰ.trans p q) h =
      add_blocks-Perm m p h ∙ add_blocks-Perm m q (IsOn-Perm p h)
