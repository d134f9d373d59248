-- ===== src/Go/Text/Parts.antt =====
-- Splitting a text that was joined gives the parts back.
use terra_worker.Prelude.{ℕ, ◌≡◌, ◌≢◌, refl, ap, ◌∙◌, Char, code, String, List, [], ◌∷◌, arith, All}
use Prim.Native.String.{◌++◌}
use text.Mathlib.TextLemmas.{nil-append, cons-append}
use terra_worker.Go.Text.{split}

-- every character of the text has the property
abbrev pub AllChars : (ℕ → Type 0) → String → Type 0
AllChars P String.[] = Unit
AllChars P (String.◌∷◌ c s) = P (code c) × AllChars P s

abbrev pub Lacks : ℕ → String → Type 0
Lacks sep = AllChars (λ c. c ≢ sep)

-- strings.Join for a separator of one character
unfoldable pub join : Char → List String → String
join sep [] = String.[]
join sep (p ∷ []) = p
join sep (p ∷ q ∷ ps) = p ++ String.◌∷◌ sep (join sep (q ∷ ps))

pub split-nil : (p : String) (sep : ℕ) → Lacks sep p → split p sep ≡ p ∷ []
unfolding split
split-nil String.[] sep _ = refl
split-nil (String.◌∷◌ c p) sep (hc, hp) = ground (arith, split-nil p sep hp)

split-append :
    (p rest : String) (sep : Char)
    → Lacks (code sep) p
    → split (p ++ String.◌∷◌ sep rest) (code sep) ≡ p ∷ split rest (code sep)
unfolding split
split-append String.[] rest sep _ = rw nil-append (ground arith)
split-append (String.◌∷◌ c p) rest sep (hc, hp) =
    rw cons-append (ground (arith, split-append p rest sep hp))

-- Splitting the join of texts that lack the separator gives the texts, if there is one.
pub split-join :
    (sep : Char) (p : String) (ps : List String)
    → All (Lacks (code sep)) (p ∷ ps)
    → split (join sep (p ∷ ps)) (code sep) ≡ p ∷ ps
unfolding join
split-join sep p [] (hp, _) = split-nil p (code sep) hp
split-join sep p (q ∷ ps) (hp, hps) =
    split-append p (join sep (q ∷ ps)) sep hp ∙ ap (λ l. p ∷ l) (split-join sep q ps hps)
