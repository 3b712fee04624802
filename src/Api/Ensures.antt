-- ===== src/Api/Ensures.antt =====
-- A rule for blocks that may fail: what holds of the final world whenever a block returns.
use kuberhealthy.Prelude.{◌≡◌, refl}
use kuberhealthy.Api.Results.{Result, ok, err, panic, Action, settle, and_then}

-- Whenever the code returns without an error, the property holds of the world it leaves.
abbrev pub Ensures : {W : Type 0} → (W → Type 0) → Result (Unit {0}) × W → Type 0
Ensures P (r, w) = r ≡ ok tt → P w

module _ {W : Type 0} (P : W → Type 0) where
  pub Ensures-and_then :
      {A : Type 0} (r : Result A) (f : A → Action W (Unit {0})) (w : W)
      → ((a : A) → r ≡ ok a → Ensures P (f a w))
      → Ensures P (and_then r f w)
  Ensures-and_then (ok a) f w rest = rest a refl
  Ensures-and_then (err e) f w rest = λ h. cc
  Ensures-and_then panic f w rest = λ h. cc

  pub Ensures-settle :
      {A : Type 0} (k : Result A → Action W (Unit {0})) (r : Result A) (w : W)
      → ((r' : Result A) → r ≡ r' → Ensures P (k r' w))
      → Ensures P (and_then (settle r) k w)
  Ensures-settle k (ok u) w next = next (ok u) refl
  Ensures-settle k (err e) w next = next (err e) refl
  Ensures-settle k panic w next = λ h. cc

-- The same for blocks that return a value.
abbrev pub Yields : {W A : Type 0} → (A → W → Type 0) → Result A × W → Type 0
Yields {A} P (r, w) = (a : A) → r ≡ ok a → P a w

pub Yields-and_then :
    {W A B : Type 0} (P : B → W → Type 0) (r : Result A) (f : A → Action W B) (w : W)
    → ((a : A) → r ≡ ok a → Yields P (f a w))
    → Yields P (and_then r f w)
Yields-and_then P (ok a) f w rest = rest a refl
Yields-and_then P (err e) f w rest = λ b h. cc
Yields-and_then P panic f w rest = λ b h. cc
