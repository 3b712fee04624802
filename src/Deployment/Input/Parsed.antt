-- ===== src/Deployment/Input/Parsed.antt =====
-- Reading back node selectors.
use kuberhealthy.Prelude.{
  ◌≡◌, refl, ap, ◌∙◌, inl, inr, false, Bool-cases, Option, Option-cases, none, some, List, [], ◌∷◌,
  map, Text, text_eq, eq_of_text_eq, Dict, lookup, insert, lookup-insert, any-append, All, has,
  split, join, split-join, ◌==◌, if◌then◌else◌, arith,
}
use kuberhealthy.Deployment.Input.{insert_new, add_selector, add_selectors, parse_node_selectors}

-- A field has no comma and no equals sign.
pub record IsField (f : Text) : Type 0 where
  pub no_equals : has b'=' f ≡ false
  pub no_comma : has b',' f ≡ false

-- A part of the input: a field, and those that follow it after equals signs.
abbrev pub Part : Type 0
Part = Text × List Text

abbrev pub IsPart : Part → Type 0
IsPart (f, fields) = IsField f × All IsField fields

abbrev pub text_of : Part → Text
text_of (f, fields) = join b'=' (f ∷ fields)

-- The value of the first part that is `key=value` for the key. Parts with another number of equals
-- signs do not count.
abbrev pub first_value : (key : Text) → List Part → Option Text
first_value key [] = none
first_value key ((k, v ∷ []) ∷ parts) = if text_eq k key then some v else first_value key parts
first_value key (p ∷ parts) = first_value key parts

abbrev pub or_first : Option Text → Option Text → Option Text
or_first (some v) o = some v
or_first none o = o

or_first-none : (o : Option Text) → o ≡ or_first o none
or_first-none (some v) = refl
or_first-none none = refl

join-lacks :
    (f : Text) (fields : List Text)
    → IsField f
    → All IsField fields
    → has b',' (join b'=' (f ∷ fields)) ≡ false
unfolding join
join-lacks f [] h hs = h.no_comma
join-lacks f (g ∷ fields) h (hg, hs) =
    rw (any-append (λ c. c == b',') f (b'=' ∷ join b'=' (g ∷ fields)))
      (ground (arith, h.no_comma, join-lacks g fields hg hs))

parts-lack :
    (parts : List Part)
    → All IsPart parts
    → All (λ (p : Text). has b',' p ≡ false) (map text_of parts)
parts-lack [] h = tt
parts-lack ((f, fields) ∷ parts) ((h, hs), rest) = (join-lacks f fields h hs, parts-lack parts rest)

fields-lack :
    (fields : List Text) → All IsField fields → All (λ (q : Text). has b'=' q ≡ false) fields
fields-lack [] h = tt
fields-lack (f ∷ fields) (h, hs) = (h.no_equals, fields-lack fields hs)

insert_new-fresh :
    (k v : Text) (m : Dict Text) → lookup k m ≡ none → insert_new k v m ≡ insert k v m
insert_new-fresh k v m fresh = rw (fresh, insert_new) refl

insert_new-known : (k v a : Text) (m : Dict Text) → lookup k m ≡ some a → insert_new k v m ≡ m
insert_new-known k v a m known = rw (known, insert_new) refl

lookup-insert_new :
    (key k v : Text) (m : Dict Text)
    → lookup key (insert_new k v m)
      ≡ or_first (lookup key m) (if text_eq k key then some v else none)
lookup-insert_new key k v m = elim (Option-cases (lookup k m)) [
  | inl fresh ↦
      ap (lookup key) (insert_new-fresh k v m fresh)
      ∙ lookup-insert k key v m
      ∙ elim (Bool-cases (text_eq k key)) [
        | inl same ↦
            let missing : lookup key m ≡ none = rw (← eq_of_text_eq k key same) fresh in
            rw (same, missing) refl
        | inr other ↦ rw other (or_first-none (lookup key m))
      ]
  | inr (a, known) ↦
      ap (lookup key) (insert_new-known k v a m known) ∙ elim (Bool-cases (text_eq k key)) [
        | inl same ↦
            let there : lookup key m ≡ some a = rw (← eq_of_text_eq k key same) known in
            rw (same, there) refl
        | inr other ↦ rw other (or_first-none (lookup key m))
      ]
]

lookup-add_selector :
    (key f : Text) (fields : List Text) (m : Dict Text)
    → lookup key (add_selector (f ∷ fields) m)
      ≡ or_first (lookup key m) (first_value key ((f, fields) ∷ []))
lookup-add_selector key f [] m = or_first-none (lookup key m)
lookup-add_selector key f (v ∷ []) m = lookup-insert_new key f v m
lookup-add_selector key f (v ∷ w ∷ fields) m = or_first-none (lookup key m)

first_value-cons :
    (key : Text) (o : Option Text) (p : Part) (parts : List Part)
    → or_first (or_first o (first_value key (p ∷ []))) (first_value key parts)
      ≡ or_first o (first_value key (p ∷ parts))
first_value-cons key none (f, []) parts = refl
first_value-cons key none (f, v ∷ []) parts = ground arith
first_value-cons key none (f, v ∷ w ∷ fields) parts = refl
first_value-cons key (some a) p parts = refl

lookup-add_selectors :
    (key : Text) (parts : List Part) (m : Dict Text)
    → All IsPart parts
    → lookup key (add_selectors (map text_of parts) m)
      ≡ or_first (lookup key m) (first_value key parts)
lookup-add_selectors key [] m h = or_first-none (lookup key m)
lookup-add_selectors key ((f, fields) ∷ parts) m ((h, hs), rest) =
    ap (λ (fs : List Text). lookup key (add_selectors (map text_of parts) (add_selector fs m)))
      (split-join b'=' f fields h.no_equals (fields-lack fields hs))
    ∙ lookup-add_selectors key parts (add_selector (f ∷ fields) m) rest
    ∙ ap (λ o. or_first o (first_value key parts)) (lookup-add_selector key f fields m)
    ∙ first_value-cons key (lookup key m) (f, fields) parts

parse-split : (t : Text) (m : Dict Text) → parse_node_selectors t m ≡ add_selectors (split b',' t) m
unfolding parse_node_selectors split
parse-split [] m = refl
parse-split (c ∷ t) m = refl

-- Node selectors that are written as `key=value` and joined by commas, also among parts with no or
-- several equals signs, are read back key by key: a key that was there keeps its value, another has
-- the value of the first `key=value` for it, and none if there is no such part.
pub parse_node_selectors-pairs :
    (key : Text) (p : Part) (parts : List Part) (m : Dict Text)
    → IsPart p
    → All IsPart parts
    → lookup key (parse_node_selectors (join b',' (map text_of (p ∷ parts))) m)
      ≡ or_first (lookup key m) (first_value key (p ∷ parts))
parse_node_selectors-pairs key p parts m (h, hs) rest =
    ap (lookup key) (
      parse-split (join b',' (map text_of (p ∷ parts))) m
      ∙ ap (λ (texts : List Text). add_selectors texts m)
          (split-join b',' (text_of p) (map text_of parts) (join-lacks p.0 p.1 h hs)
            (parts-lack parts rest)))
    ∙ lookup-add_selectors key (p ∷ parts) m ((h, hs), rest)
