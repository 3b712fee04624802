-- ===== src/Daemonset/Input/Written.antt =====
-- Reading back what was written as a toleration or an allowed taint.
use kuberhealthy.Prelude.{
  ℕ, ◌≡◌, refl, false, [], ◌∷◌, ◌++◌, Text, codes, Dict, is_empty, any-append, has, split, join,
  split-join, ◌==◌,
}
use kuberhealthy.Api.Results.{ok, panic}
use kuberhealthy.Daemonset.Input.{find_val_effect, create_toleration, create_taint_map}

-- A text that is not empty and has no `=`, `:` or `,`.
pub record IsWord (s : Text) : Type 0 where
  pub has_text : is_empty s ≡ false
  pub no_equals : has b'=' s ≡ false
  pub no_colon : has b':' s ≡ false

has-append : (q : ℕ) (s t : Text) → has q s ≡ false → has q t ≡ false → has q (s ++ t) ≡ false
has-append q s t h k = rw (any-append (λ c. c == q) s t, h, k) refl

-- `value:effect`
abbrev pub value_effect : (value effect : Text) → Text
value_effect value effect = join b':' (value ∷ effect ∷ [])

-- `key=value:effect`
abbrev pub written : (key value effect : Text) → Text
written key value effect = join b'=' (key ∷ value_effect value effect ∷ [])

nonempty-join : (q : ℕ) (s t : Text) → is_empty s ≡ false → is_empty (join q (s ∷ t ∷ [])) ≡ false
unfolding join
nonempty-join q [] t h = cc
nonempty-join q (c ∷ s) t h = refl

has-value_effect :
    (value effect : Text)
    → IsWord value
    → has b'=' effect ≡ false
    → has b'=' (value_effect value effect) ≡ false
unfolding join
has-value_effect value effect v h = has-append b'=' value (b':' ∷ effect) v.no_equals h

find_val_effect-value_effect :
    (value effect : Text)
    → IsWord value
    → has b':' effect ≡ false
    → find_val_effect (value_effect value effect) ≡ ok (value, effect)
unfolding find_val_effect
find_val_effect-value_effect value effect v h =
    rw
      (
        nonempty-join b':' value effect v.has_text,
        split-join b':' value (effect ∷ []) v.no_colon (h, tt),
        v.has_text,
      )
      refl

split-written :
    (key value effect : Text)
    → IsWord key
    → IsWord value
    → has b'=' effect ≡ false
    → split b'=' (written key value effect) ≡ key ∷ value_effect value effect ∷ []
split-written key value effect k v h =
    split-join b'=' key (value_effect value effect ∷ []) k.no_equals
      (has-value_effect value effect v h, tt)

-- A toleration that is written as `key=value:effect`, with a key and a value that are not empty and
-- no separator in the parts, is read back as an Equal toleration of exactly these parts.
pub create_toleration-written :
    (key value effect : Text)
    → IsWord key
    → IsWord value
    → has b'=' effect ≡ false
    → has b':' effect ≡ false
    → create_toleration (written key value effect)
      ≡ ok (record { key = key; operator = codes "Equal"; value = value; effect = effect })
unfolding create_toleration
create_toleration-written key value effect k v h h' =
    rw
      (
        nonempty-join b'=' key (value_effect value effect) k.has_text,
        split-written key value effect k v h,
        k.has_text,
        find_val_effect-value_effect value effect v h',
      )
      refl

-- An allowed taint without a colon, or an equals sign, makes createTaintMap panic: the part after the
-- colon is read although it is not there.
pub create_taint_map-panics :
    (taint_map : Dict Text) (key : Text) → IsWord key → create_taint_map taint_map key ≡ panic
unfolding create_taint_map
create_taint_map-panics taint_map key k =
    let apart : split b'=' key ≡ key ∷ [] = unfold join in split-join b'=' key [] k.no_equals tt in
    let whole : split b':' key ≡ key ∷ [] = unfold join in split-join b':' key [] k.no_colon tt in
    rw (apart, whole, k.has_text) refl
