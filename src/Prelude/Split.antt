-- ===== src/Prelude/Split.antt =====
-- `strings.Split` and `strings.Join` for a separator of one character.
use Prim.Native.Nat.{ℕ}
use mathlib.Core.Path.{◌≡◌, refl, ◌∙◌, ap}
use mathlib.Core.Logic.{inl, inr}
use mathlib.Core.Bool.{Bool, false}
use mathlib.Core.List.{List, [], ◌∷◌, ◌++◌}
use native.Mathlib.Omega.{arith}
use kuberhealthy.Prelude.Tests.{◌==◌, if◌then◌else◌, Bool-cases}
use kuberhealthy.Prelude.Lists.{any, All}
use kuberhealthy.Prelude.Strings.{Text}

abbrev pub add_to_first : ℕ → List Text → List Text
add_to_first c [] = (c ∷ []) ∷ []
add_to_first c (p ∷ parts) = (c ∷ p) ∷ parts

-- `strings.Split(s, sep)`
unfoldable pub split : (sep : ℕ) → Text → List Text
split sep [] = [] ∷ []
split sep (c ∷ s) = let rest = split sep s in if c == sep then [] ∷ rest else add_to_first c rest

-- `strings.Join(parts, sep)`
unfoldable pub join : (sep : ℕ) → List Text → Text
join sep [] = []
join sep (p ∷ []) = p
join sep (p ∷ q ∷ parts) = p ++ (sep ∷ join sep (q ∷ parts))

-- The text has the character.
abbrev pub has : ℕ → Text → Bool
has sep s = any (λ c. c == sep) s

split-part : (sep : ℕ) (p : Text) → has sep p ≡ false → split sep p ≡ p ∷ []
unfolding split
split-part sep [] h = refl
split-part sep (c ∷ p) h = ground (arith, h, split-part sep p)

split-append :
    (sep : ℕ) (p s : Text) → has sep p ≡ false → split sep (p ++ (sep ∷ s)) ≡ p ∷ split sep s
unfolding split
split-append sep [] s h = ground arith
split-append sep (c ∷ p) s h = elim (Bool-cases (c == sep)) [
  | inl same ↦ let h' = rw same at h in cc
  | inr other ↦ let h' : has sep p ≡ false = rw other at h in rw (other, split-append sep p s h')
]

-- Splitting undoes joining, for parts without the separator.
pub split-join :
    (sep : ℕ) (p : Text) (parts : List Text)
    → has sep p ≡ false
    → All (λ (q : Text). has sep q ≡ false) parts
    → split sep (join sep (p ∷ parts)) ≡ p ∷ parts
unfolding join
split-join sep p [] h hs = split-part sep p h
split-join sep p (q ∷ parts) h (hq, hs) =
    split-append sep p (join sep (q ∷ parts)) h
    ∙ ap (λ (l : List Text). p ∷ l) (split-join sep q parts hq hs)
