-- ===== src/Prelude/Bags.antt =====
-- Lists that hold the same items, each as often, are permutations of one another.
use Prim.Native.Nat.{ℕ, ◌+◌, ◌<◌}
use mathlib.Core.Path.{◌≡◌, refl, sym, ap, subst}
use mathlib.Core.Logic.{◌↔◌, inl, inr}
use mathlib.Core.Bool.{Bool, true}
use mathlib.Core.List.Permᴰ
use mathlib.Core.List.{List, [], ◌∷◌, ◌++◌, Permᴰ}
use native.Mathlib.Omega.{arith}
use terra_worker.Prelude.Tests.{if◌then◌else◌, Bool-cases}

module _ {ℓ} {A : Type ℓ} (beq : A → A → Bool)
    (beq_iff : (a b : A) → (beq a b ≡ true) ↔ (a ≡ b)) where
  unfoldable pub count : A → List A → ℕ
  count a [] = 0
  count a (x ∷ xs) = (if beq a x then 1 else 0) + count a xs

  pub count-append : (a : A) (xs ys : List A) → count a (xs ++ ys) ≡ count a xs + count a ys
  unfolding count
  count-append a [] ys = omega arith
  count-append a (x ∷ xs) ys = omega (arith, count-append a xs ys)

  split_at :
      (a : A) (xs : List A)
      → 0 < count a xs
      → (before : List A) × (behind : List A) × (xs ≡ before ++ a ∷ behind)
  unfolding count
  split_at a [] h = absurd (omega arith)
  split_at a (x ∷ xs) h = elim (Bool-cases (beq a x)) [
    | inl e ↦ ([], xs, ap (λ y. y ∷ xs) (sym ((beq_iff a x).0 e)))
    | inr e ↦
        let later : 0 < 0 + count a xs = rw e at h in
        let (before, behind, at) = split_at a xs (omega arith) in
        (x ∷ before, behind, ap (λ l. x ∷ l) at)
  ]

  pub Perm_of_count : (xs ys : List A) → ((a : A) → count a xs ≡ count a ys) → Permᴰ xs ys
  unfolding count
  Perm_of_count [] [] h = Permᴰ.nil
  Perm_of_count [] (y ∷ ys) h =
      let same : beq y y ≡ true = (beq_iff y y).1 refl in
      let more : 0 ≡ 1 + count y ys = rw same at (h y) in absurd (omega arith)
  Perm_of_count (x ∷ xs) ys h =
      let same : beq x x ≡ true = (beq_iff x x).1 refl in
      let more : 1 + count x xs ≡ count x ys = rw same at (h x) in
      let (before, behind, at) = split_at x ys (omega arith) in
      let rest = Perm_of_count xs (before ++ behind) λ a. omega (
        arith,
        h a,
        ap (count a) at,
        count-append a before (x ∷ behind),
        count-append a before behind,
      ) in
      subst (λ l. Permᴰ (x ∷ xs) l) (sym at)
        (Permᴰ.trans (Permᴰ.cons refl rest) (Permᴰ.symm (Permᴰ.middle x before behind)))
