-- ===== src/PodRestarts/Kept.antt =====
-- What the check of the bad pods removes.
use kuberhealthy.Prelude.{
  ◌≡◌, refl, inl, inr, ℕ, true, false, Bool-cases, Option-cases, List, [], ◌∷◌, any-append, All,
  Text, text_eq, eq_of_text_eq, Dict, insert, delete, has, split, add_to_first, ◌==◌, arith,
}
use kuberhealthy.Api.Results.{is_not_found, Reply, reply, refuse}
use kuberhealthy.PodRestarts.{
  Event, RestartsApi, key_of, second_part, is_bad, add_bad_pods, keys_of, without,
  verify_bad_pod_restart_exists, verify_all, do_checks,
}

-- Every key has a slash.
abbrev IsKeyed : Dict Text → Type 0
IsKeyed [] = Unit
IsKeyed ((k, v) ∷ m) = (has b'/' k ≡ true) × IsKeyed m

delete-IsKeyed :
    (name : Text) (m : Dict Text) → has b'/' name ≡ false → IsKeyed m → delete name m ≡ m
unfolding delete
delete-IsKeyed name [] h keyed = refl
delete-IsKeyed name ((k, v) ∷ m) h (slash, keyed) = elim (Bool-cases (text_eq k name)) [
  | inl same ↦
      let slash' : has b'/' name ≡ true = rw (← eq_of_text_eq k name same) slash in
      ground (arith, slash', h)
  | inr other ↦ rw (other, delete-IsKeyed name m h keyed) refl
]

insert-IsKeyed :
    (k v : Text) (m : Dict Text) → has b'/' k ≡ true → IsKeyed m → IsKeyed (insert k v m)
unfolding insert
insert-IsKeyed k v [] h keyed = (h, tt)
insert-IsKeyed k v ((j, u) ∷ m) h (slash, keyed) = elim (Bool-cases (text_eq j k)) [
  | inl same ↦ rw same (h, keyed)
  | inr other ↦ rw other (slash, insert-IsKeyed k v m h keyed)
]

added-lacks :
    (q c : ℕ) (parts : List Text)
    → (c == q) ≡ false
    → All (λ (p : Text). has q p ≡ false) parts
    → All (λ (p : Text). has q p ≡ false) (add_to_first c parts)
added-lacks q c [] other h = (rw other refl, tt)
added-lacks q c (p ∷ parts) other (h, hs) = (rw (other, h) refl, hs)

split-lacks : (q : ℕ) (s : Text) → All (λ (p : Text). has q p ≡ false) (split q s)
unfolding split
split-lacks q [] = (refl, tt)
split-lacks q (c ∷ s) = elim (Bool-cases (c == q)) [
  | inl same ↦ rw same (refl, split-lacks q s)
  | inr other ↦ rw other (added-lacks q c (split q s) other (split-lacks q s))
]

second_part-lacks :
    (parts : List Text)
    → All (λ (p : Text). has b'/' p ≡ false) parts
    → has b'/' (second_part parts) ≡ false
second_part-lacks [] h = refl
second_part-lacks (p ∷ []) h = refl
second_part-lacks (p ∷ q ∷ parts) h = h.1.0

key_of-slash : (e : Event) → has b'/' (key_of e) ≡ true
key_of-slash e = rw (any-append (λ c. c == b'/') e.namespace (b'/' ∷ e.name)) (ground arith)

add_bad_pods-IsKeyed :
    (max : ℕ) (events : List Event) (m : Dict Text)
    → IsKeyed m
    → IsKeyed (add_bad_pods max events m)
unfolding add_bad_pods
add_bad_pods-IsKeyed max [] m h = h
add_bad_pods-IsKeyed max (e ∷ events) m h =
    add_bad_pods-IsKeyed max events _ (elim (Bool-cases (is_bad max e)) [
      | inl bad ↦ rw bad (insert-IsKeyed (key_of e) _ m (key_of-slash e) h)
      | inr fine ↦ rw fine h
    ])

module _ (api : RestartsApi) where
  without-keeps :
      (name : Text) (m : Dict Text) (r : Reply (Unit {0}))
      → has b'/' name ≡ false
      → IsKeyed m
      → (without api name m r).1 ≡ m
  without-keeps name m (reply u) h keyed = refl
  without-keeps name m (refuse e) h keyed = elim (Bool-cases (is_not_found e)) [
    | inl missing ↦ rw missing (delete-IsKeyed name m h keyed)
    | inr other ↦ rw other refl
  ]

  verify_bad_pod-keeps :
      (pod : Text) (m : Dict Text) (w : api.World)
      → IsKeyed m
      → (verify_bad_pod_restart_exists api pod m w).0.1 ≡ m
  unfolding verify_bad_pod_restart_exists
  verify_bad_pod-keeps pod m w keyed =
      without-keeps (second_part (split b'/' pod)) m _
        (second_part-lacks (split b'/' pod) (split-lacks b'/' pod)) keyed

  verify_all-keeps :
      (pods : List Text) (m : Dict Text) (w : api.World)
      → IsKeyed m
      → (verify_all api pods m w).0.1 ≡ m
  unfolding verify_all
  verify_all-keeps [] m w keyed = refl
  verify_all-keeps (pod ∷ pods) m w keyed =
      let o = verify_bad_pod_restart_exists api pod m w in
      let kept = verify_bad_pod-keeps pod m w keyed in
      elim (Option-cases o.0.0) [
        | inr (e, failed) ↦ rw (failed, verify_all) kept
        | inl fine ↦ rw (fine, kept, verify_all) (verify_all-keeps pods m o.1 keyed)
      ]

-- The check never takes a pod off its list of bad pods, also if the pod no longer exists: once the
-- events are listed, the pods that are reported are those of the events, whatever the cluster answers.
pub do_checks-keeps :
    (api : RestartsApi) (max_failures_allowed : ℕ) (events : List Event) (w : api.World)
    → (api.list_warnings w).0 ≡ reply events
    → (do_checks api max_failures_allowed w).0.1 ≡ add_bad_pods max_failures_allowed events []
unfolding do_checks
do_checks-keeps api max_failures_allowed events w listed =
    let m = add_bad_pods max_failures_allowed events [] in
    rw listed (
      verify_all-keeps api (keys_of m) m (api.list_warnings w).1
        (add_bad_pods-IsKeyed max_failures_allowed events [] tt))
