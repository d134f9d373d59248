-- ===== src/Api/Blocks/Gathered.antt =====
-- What the map of blocks holds after the answers were gathered.
use terra_worker.Prelude.{
  ℕ, ◌+◌, ◌%◌, ◌^◌, ◌<◌, ◌≤◌, ◌≡◌, refl, sym, ap, ◌∙◌, inl, inr, true, Option, some, List, [], ◌∷◌,
  ◌==◌, arith, Bool-cases, All, add64,
}
use terra_worker.Structs.{Block}
use terra_worker.Api.Blocks.{BlocksMap, no_blocks, with_block, lower, higher, add_block, add_blocks}
use terra_worker.Api.Blocks.Order.{IsOn}

pub total : List Block → ℕ
total [] = 0
total (b ∷ bs) = b.number_of_transactions + total bs

mod_bound : (n : ℕ) → n % 2 ^ 64 < 2 ^ 64
mod_bound n = omega arith

mod_sum : (a b c : ℕ) → ((a + b) % 2 ^ 64 + c) % 2 ^ 64 ≡ (a + (b + c)) % 2 ^ 64
mod_sum a b c = omega arith

num_txs-add_blocks :
    (m : BlocksMap) (bs : List Block)
    → m.num_txs < 2 ^ 64
    → (add_blocks m bs).num_txs ≡ (m.num_txs + total bs) % 2 ^ 64
unfolding add_blocks total add_block add64
num_txs-add_blocks m [] h = omega arith
num_txs-add_blocks m (b ∷ bs) h =
    num_txs-add_blocks (add_block m b) bs (mod_bound (m.num_txs + b.number_of_transactions))
    ∙ mod_sum m.num_txs b.number_of_transactions (total bs)

-- the block stands in the map, and its height between the map's ends
abbrev pub IsCovered : BlocksMap → Block → Type 0
IsCovered m b =
    (0 < m.start_height)
    × (m.start_height ≤ b.height)
    × (b.height ≤ m.end_height)
    × (m.blocks b.height ≡ some b)

at_itself : (n : ℕ) → (n == n) ≡ true
at_itself n = ground arith

lower-bounds :
    (start h k : ℕ)
    → 0 < h
    → 0 < k
    → 0 < start
    → start ≤ k
    → (0 < lower start h) × (lower start h ≤ k)
unfolding lower
lower-bounds start h k p q r s = ground arith

higher-bound : (last h k : ℕ) → k ≤ last → k ≤ higher last h
unfolding higher
higher-bound last h k p = ground arith

module _ (chain : ℕ → Block) where
  IsCovered-add_block : (m : BlocksMap) (b : Block) → IsOn chain b → IsCovered (add_block m b) b
  unfolding add_block lower higher with_block
  IsCovered-add_block m b (h, e) =
      let here : with_block m.blocks b b.height ≡ some b = rw (at_itself b.height) refl in
      (ground arith, ground arith, ground arith, here)

  with_block-kept :
      (blocks : ℕ → Option Block) (b c : Block)
      → IsOn chain b
      → IsOn chain c
      → blocks b.height ≡ some b
      → with_block blocks c b.height ≡ some b
  unfolding with_block
  with_block-kept blocks b c (hb, eb) (hc, ec) h = elim (Bool-cases (b.height == c.height)) [
    | inl same ↦
        let heights : c.height ≡ b.height = ground arith in
        rw same (ap some (sym ec ∙ ap chain heights ∙ eb))
    | inr other ↦ rw other h
  ]

  IsCovered-kept :
      (m : BlocksMap) (b c : Block)
      → IsOn chain b
      → IsOn chain c
      → IsCovered m b
      → IsCovered (add_block m c) b
  unfolding add_block lower higher
  IsCovered-kept m b c hb hc (positive, low, high, found) =
      let (p, q) = lower-bounds m.start_height c.height b.height hc.0 hb.0 positive low in
      (
        p,
        q,
        higher-bound m.end_height c.height b.height high,
        with_block-kept m.blocks b c hb hc found,
      )

  IsCovered-after :
      (m : BlocksMap) (b : Block) (bs : List Block)
      → IsOn chain b
      → All (IsOn chain) bs
      → IsCovered m b
      → IsCovered (add_blocks m bs) b
  unfolding add_blocks
  IsCovered-after m b [] h hs covered = covered
  IsCovered-after m b (c ∷ bs) h (hc, hs) covered =
      IsCovered-after (add_block m c) b bs h hs (IsCovered-kept m b c h hc covered)

  All-IsCovered :
      (m : BlocksMap) (bs : List Block) → All (IsOn chain) bs → All (IsCovered (add_blocks m bs)) bs
  unfolding add_blocks
  All-IsCovered m [] h = tt
  All-IsCovered m (b ∷ bs) (h, hs) = (
    IsCovered-after (add_block m b) b bs h hs (IsCovered-add_block m b h),
    All-IsCovered (add_block m b) bs hs,
  )

  -- Where the blocks of one chain, at heights above 0, are added to the empty map, each stands in
  -- the map under its height, no lower than the map's start height, which is above 0, and no
  -- higher than its end height, and the count of transactions is the sum of theirs modulo 2^64.
  pub add_blocks-IsCovered :
      (bs : List Block)
      → All (IsOn chain) bs
      → All (IsCovered (add_blocks no_blocks bs)) bs
        × ((add_blocks no_blocks bs).num_txs ≡ total bs % 2 ^ 64)
  add_blocks-IsCovered bs h = (
    All-IsCovered no_blocks bs h,
    num_txs-add_blocks no_blocks bs (omega arith) ∙ ap (λ n. n % 2 ^ 64) (omega arith),
  )
