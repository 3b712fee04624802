-- ===== src/Master/Choice.antt =====
-- The chosen master is the least of the pod names, so replicas that see the same pods agree.
use kuberhealthy.Prelude.{
  Bool, true, false, ◌≡◌, refl, sym, ap, ◌∙◌, some, List, [], ◌∷◌, map, any, Text, text_eq,
  text_eq_refl, eq_of_text_eq, to_lower, arith, if◌then◌else◌,
}
use kuberhealthy.Api.Types.{Pod}
use kuberhealthy.Api.Results.{reply}
use kuberhealthy.Api.Cluster.{Cluster}
use kuberhealthy.Master.{text_leb, insert_text, sort_strings, head?, choose_master, i_am_master}
use kuberhealthy.Master.Order.{text_leb_refl, text_leb_antisymm, text_leb_trans, text_leb_total}

-- `n` is one of the names.
abbrev pub is_listed : Text → List Text → Bool
is_listed n names = any (text_eq n) names

pub record IsLeast (m : Text) (names : List Text) : Type 0 where
  pub listed : is_listed m names ≡ true
  pub least : (n : Text) → is_listed n names ≡ true → text_leb m n ≡ true

head?-insert :
    (x : Text) (ys : List Text) (h : Text)
    → head? ys ≡ some h
    → head? (insert_text x ys) ≡ some (if text_leb x h then x else h)
unfolding insert_text
head?-insert x [] h e = cc
head?-insert x (y ∷ ys) h e = ground arith

head?-insert_some : (x : Text) (ys : List Text) → (h : Text) × (head? (insert_text x ys) ≡ some h)
unfolding insert_text
head?-insert_some x [] = (x, refl)
head?-insert_some x (y ∷ ys) = (if text_leb x y then x else y, ground arith)

IsLeast-single : (x : Text) → IsLeast x (x ∷ [])
IsLeast-single x = record {
  listed = rw (text_eq_refl x);
  least = λ n h. ground (arith, eq_of_text_eq n x, text_leb_refl x);
}

IsLeast-cons :
    (x h : Text) (xs : List Text) → IsLeast h xs → IsLeast (if text_leb x h then x else h) (x ∷ xs)
IsLeast-cons x h xs l = record {
  listed = ground (arith, text_eq_refl x, l.listed);
  least = λ n listed. ground (
    arith,
    eq_of_text_eq n x,
    text_leb_refl x,
    text_leb_total x h,
    text_leb_trans x h n,
    l.least n,
  );
}

single_head : (x m : Text) → head? (insert_text x []) ≡ some m → x ≡ m
unfolding insert_text
single_head x m e = cc

head?-sort : (xs : List Text) (m : Text) → head? (sort_strings xs) ≡ some m → IsLeast m xs
unfolding sort_strings
head?-sort [] m e = cc
head?-sort (x ∷ []) m e = rw (← single_head x m e) (IsLeast-single x)
head?-sort (x ∷ y ∷ ys) m e =
    let (h, found) = head?-insert_some y (sort_strings ys) in
    let e' : (if text_leb x h then x else h) ≡ m =
      cc (head?-insert x (sort_strings (y ∷ ys)) h found) in
    rw (← e') (IsLeast-cons x h (y ∷ ys) (head?-sort (y ∷ ys) h found))

-- The name that is chosen is one of the names and the least of them.
pub choose_master-IsLeast :
    (names : List Text) (m : Text) → choose_master names ≡ some m → IsLeast m names
unfolding choose_master
choose_master-IsLeast names m e = head?-sort names m e

pub choose_master-some :
    (x : Text) (xs : List Text) → (m : Text) × (choose_master (x ∷ xs) ≡ some m)
unfolding choose_master sort_strings
choose_master-some x xs = head?-insert_some x (sort_strings xs)

pub IsLeast-unique : (m n : Text) (names : List Text) → IsLeast m names → IsLeast n names → m ≡ n
IsLeast-unique m n names a b = text_leb_antisymm m n (a.least n b.listed) (b.least m a.listed)

-- The pods of a listing.
abbrev pub pod_names : List Pod → List Text
pod_names = map (λ (p : Pod). p.name)

pub i_am_master-least :
    (c : Cluster) (my_pod : Text) (w : c.World) (pods : List Pod) (m : Text)
    → (c.list_kuberhealthy_pods w).0 ≡ reply pods
    → IsLeast m (pod_names pods)
    → (i_am_master c false my_pod w).0.0 ≡ text_eq (to_lower my_pod) (to_lower m)
unfolding i_am_master
i_am_master-least c my_pod w [] m listing l = cc (l.listed)
i_am_master-least c my_pod w (p ∷ pods) m listing l =
    let (n, chosen) = choose_master-some p.name (pod_names pods) in
    let same : n ≡ m = IsLeast-unique n m _ (choose_master-IsLeast _ n chosen) l in
    rw (listing, chosen) (ground (arith, same))

no_pods :
    (c : Cluster) (my_pod : Text) (w : c.World)
    → (c.list_kuberhealthy_pods w).0 ≡ reply []
    → (i_am_master c false my_pod w).0.0 ≡ false
unfolding i_am_master choose_master sort_strings
no_pods c my_pod w listing = rw listing

choose_master_listed :
    (c : Cluster) (my_pod : Text) (w : c.World) (pods : List Pod)
    → (c.list_kuberhealthy_pods w).0 ≡ reply pods
    → (i_am_master c false my_pod w).0.0 ≡ true
    → (m : Text) × IsLeast m (pod_names pods) × (to_lower my_pod ≡ to_lower m)
choose_master_listed c my_pod w [] listing yes_master = cc (no_pods c my_pod w listing)
choose_master_listed c my_pod w (p ∷ pods) listing yes_master =
    let (m, chosen) = choose_master-some p.name (pod_names pods) in
    let l = choose_master-IsLeast _ m chosen in
    (
      m,
      l,
      eq_of_text_eq _ _ (sym (i_am_master-least c my_pod w (p ∷ pods) m listing l) ∙ yes_master),
    )

-- Two replicas without the debugging flag, whose listings of the running pods hold the same names in
-- any order, both take themselves for the master only if their POD_NAMEs agree up to the case of
-- letters.
pub i_am_master_unique :
    (c : Cluster) (pod_a pod_b : Text) (w_a w_b : c.World) (pods_a pods_b : List Pod)
    → (c.list_kuberhealthy_pods w_a).0 ≡ reply pods_a
    → (c.list_kuberhealthy_pods w_b).0 ≡ reply pods_b
    → ((n : Text) → is_listed n (pod_names pods_a) ≡ is_listed n (pod_names pods_b))
    → (i_am_master c false pod_a w_a).0.0 ≡ true
    → (i_am_master c false pod_b w_b).0.0 ≡ true
    → to_lower pod_a ≡ to_lower pod_b
i_am_master_unique c pod_a pod_b w_a w_b pods_a pods_b la lb same a b =
    let (m, least_a, e_a) = choose_master_listed c pod_a w_a pods_a la a in
    let (n, least_b, e_b) = choose_master_listed c pod_b w_b pods_b lb b in
    let least_b' : IsLeast n (pod_names pods_a) = record {
      listed = same n ∙ least_b.listed;
      least = λ k h. least_b.least k (sym (same k) ∙ h);
    } in
    e_a ∙ ap to_lower (IsLeast-unique m n _ least_a least_b') ∙ sym e_b

-- Some replica takes itself for the master: wherever the listing has a pod, it has one whose name,
-- held in POD_NAME, makes the answer true.
pub i_am_master_exists :
    (c : Cluster) (w : c.World) (p : Pod) (pods : List Pod)
    → (c.list_kuberhealthy_pods w).0 ≡ reply (p ∷ pods)
    → (m : Text) × (is_listed m (pod_names (p ∷ pods)) ≡ true)
      × ((i_am_master c false m w).0.0 ≡ true)
i_am_master_exists c w p pods listing =
    let (m, chosen) = choose_master-some p.name (pod_names pods) in
    let l = choose_master-IsLeast _ m chosen in
    (m, l.listed, i_am_master-least c m w (p ∷ pods) m listing l ∙ text_eq_refl (to_lower m))
