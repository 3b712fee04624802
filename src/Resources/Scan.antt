-- ===== src/Resources/Scan.antt =====
-- When the scan of the khchecks signals a change.
use kuberhealthy.Prelude.{
  ◌≡◌, refl, sym, ap, ◌∙◌, inl, inr, Bool, true, false, ◌||◌, Bool-cases, Option, none, some, List,
  [], ◌∷◌, any, All, Text, text_eq, eq_of_text_eq, is_empty, Dict, lookup, insert, delete,
  lookup-insert, arith,
}
use kuberhealthy.Resources.{
  CheckConfig, KhCheck, map_name, same_entries, is_same_map, is_same_config, purge, is_changed,
  scan_items, scan,
}

eq_of_same_entries : (a b : Dict Text) → same_entries a b ≡ true → a ≡ b
unfolding same_entries
eq_of_same_entries [] [] h = refl
eq_of_same_entries [] (e ∷ b) h = cc
eq_of_same_entries (e ∷ a) [] h = cc
eq_of_same_entries ((k, v) ∷ a) ((j, u) ∷ b) h =
    ground (arith, h, eq_of_text_eq k j, eq_of_text_eq v u, eq_of_same_entries a b)

eq_of_is_same_map : (a b : Option (Dict Text)) → is_same_map a b ≡ true → a ≡ b
eq_of_is_same_map none none h = refl
eq_of_is_same_map none (some b) h = cc
eq_of_is_same_map (some a) none h = cc
eq_of_is_same_map (some a) (some b) h = ap some (eq_of_same_entries a b h)

eq_of_is_same_config : (a b : CheckConfig) → is_same_config a b ≡ true → a ≡ b
unfolding is_same_config
eq_of_is_same_config a b h = ground (
  arith,
  h,
  eq_of_text_eq a.run_interval b.run_interval,
  eq_of_text_eq a.timeout b.timeout,
  eq_of_text_eq a.pod_spec b.pod_spec,
  eq_of_is_same_map a.extra_labels b.extra_labels,
  eq_of_is_same_map a.extra_annotations b.extra_annotations,
)

is_unchanged : (o : Option CheckConfig) (c : CheckConfig) → is_changed o c ≡ false → o ≡ some c
is_unchanged none c h = cc
is_unchanged (some old) c h = ap some (eq_of_is_same_config old c (ground (arith, h)))

-- A khcheck with a name and a namespace is known with its specification.
abbrev pub IsKnown : Dict CheckConfig → KhCheck → Type 0
IsKnown known kc =
    (is_empty kc.namespace || is_empty kc.name) ≡ false → lookup (map_name kc) known ≡ some kc.spec

abbrev pub IsListed : List KhCheck → Text × CheckConfig → Type 0
IsListed items (k, c) = any (λ (kc : KhCheck). text_eq (map_name kc) k) items ≡ true

-- The known settings and the listing say the same.
pub record Agrees (known : Dict CheckConfig) (items : List KhCheck) : Type 0 where
  pub all_known : All (IsKnown known) items
  pub all_listed : All (IsListed items) known

abbrev Same : Dict CheckConfig → Dict CheckConfig → Type 0
Same known known' = (j : Text) → lookup j known ≡ lookup j known'

scan_items-found :
    (items : List KhCheck) (known : Dict CheckConfig) → (scan_items items (known, true)).1 ≡ true
unfolding scan_items
scan_items-found [] known = refl
scan_items-found (kc ∷ items) known =
    elim (Bool-cases (is_empty kc.namespace || is_empty kc.name)) [
      | inl bad ↦ rw bad (scan_items-found items known)
      | inr good ↦ rw good (scan_items-found items (insert (map_name kc) kc.spec known))
    ]

insert-Same :
    (k : Text) (c : CheckConfig) (m : Dict CheckConfig)
    → lookup k m ≡ some c
    → Same (insert k c m) m
insert-Same k c m e = λ j. elim (Bool-cases (text_eq k j)) [
  | inl same ↦
      rw (lookup-insert k j c m, same)
        (sym e ∙ ap (λ (t : Text). lookup t m) (eq_of_text_eq k j same))
  | inr other ↦ rw (lookup-insert k j c m, other)
]

scan_items-quiet :
    (items : List KhCheck) (known start : Dict CheckConfig)
    → Same known start
    → (scan_items items (known, false)).1 ≡ false
    → All (IsKnown start) items × Same (scan_items items (known, false)).0 start
unfolding scan_items
scan_items-quiet [] known start same = λ h. (tt, same)
scan_items-quiet (kc ∷ items) known start same =
    elim (Bool-cases (is_empty kc.namespace || is_empty kc.name)) [
      | inl bad ↦ rw bad (λ h.
          let (rest, after) = scan_items-quiet items known start same h in
          (((λ good. cc), rest), after))
      | inr good ↦ elim (Bool-cases (is_changed (lookup (map_name kc) known) kc.spec)) [
        | inl changed ↦
            rw (good, changed)
              (λ h. let found = scan_items-found items (insert (map_name kc) kc.spec known) in cc)
        | inr unchanged ↦
            let known_same = is_unchanged (lookup (map_name kc) known) kc.spec unchanged in
            rw (good, unchanged)
              (λ h.
                let (rest, after) =
                  scan_items-quiet items (insert (map_name kc) kc.spec known) start
                    (λ j. insert-Same (map_name kc) kc.spec known known_same j ∙ same j) h in
                (((λ _. sym (same (map_name kc)) ∙ known_same), rest), after))
      ]
    ]

purge-found :
    (items : List KhCheck) (rest known : Dict CheckConfig)
    → (purge items rest (known, true)).1 ≡ true
unfolding purge
purge-found items [] known = refl
purge-found items ((k, c) ∷ rest) known =
    ground (arith, purge-found items rest known, purge-found items rest (delete k known))

purge-quiet :
    (items : List KhCheck) (rest known : Dict CheckConfig)
    → (purge items rest (known, false)).1 ≡ false
    → All (IsListed items) rest × (purge items rest (known, false) ≡ (known, false))
unfolding purge
purge-quiet items [] known = λ h. (tt, refl)
purge-quiet items ((k, c) ∷ rest) known =
    elim (Bool-cases (any (λ (kc : KhCheck). text_eq (map_name kc) k) items)) [
      | inl listed ↦
          rw listed (λ h. let (all, stays) = purge-quiet items rest known h in ((refl, all), stays))
      | inr gone ↦ rw gone (λ h. let found = purge-found items rest (delete k known) in cc)
    ]

scan-quiet :
    (known : Dict CheckConfig) (items : List KhCheck) (o : Dict CheckConfig × Bool)
    → purge items known (known, false) ≡ o
    → (scan_items items o).1 ≡ false
    → Agrees known items × Same (scan_items items o).0 known
scan-quiet known items (m, true) e h = let found = scan_items-found items m in cc
scan-quiet known items (m, false) e h =
    let (listed, stays) =
      purge-quiet items known known (ap (λ (t : Dict CheckConfig × Bool). t.1) e) in
    let m_known : m ≡ known = ap (λ (t : Dict CheckConfig × Bool). t.0) (sym e ∙ stays) in
    let (all, after) = scan_items-quiet items m known (λ j. ap (lookup j) m_known) h in
    (record { all_known = all; all_listed = listed }, after)

-- A scan that signals no change leaves what is known of every name as it was.
pub scan-stays :
    (known : Dict CheckConfig) (items : List KhCheck) (k : Text)
    → (scan known items).1 ≡ false
    → lookup k (scan known items).0 ≡ lookup k known
unfolding scan
scan-stays known items k h = (scan-quiet known items (purge items known (known, false)) refl h).1 k
