-- ===== src/Master/Names.antt =====
-- The choice of the master as a function of the set of pod names, which forgets their order and how
-- often they are listed.
use kuberhealthy.Prelude.{
  true, ◌≡◌, refl, sym, ap, ◌∙◌, Option, none, some, List, [], ◌∷◌, Text, codes, text_eq_refl,
}
use mathlib.Core.Quot
use mathlib.Core.Quot.{Quot}
use kuberhealthy.Api.Types.{Pod}
use kuberhealthy.Api.Results.{Result, ok, err, new_error, reply}
use kuberhealthy.Api.Cluster.{Cluster}
use kuberhealthy.Master.{choose_master, found_master, calculate_master}
use kuberhealthy.Master.Choice.{
  is_listed, IsLeast, choose_master-IsLeast, choose_master-some, IsLeast-unique, pod_names,
}

abbrev pub SameNames : List Text → List Text → Type 0
SameNames xs ys = (n : Text) → is_listed n xs ≡ is_listed n ys

abbrev pub NameSet : Type 0
NameSet = Quot SameNames

listed_first : (x : Text) (xs : List Text) → is_listed x (x ∷ xs) ≡ true
listed_first x xs = rw (text_eq_refl x) refl

IsLeast-same : (m : Text) (xs ys : List Text) → SameNames xs ys → IsLeast m xs → IsLeast m ys
IsLeast-same m xs ys same l = record {
  listed = sym (same m) ∙ l.listed;
  least = λ n h. l.least n (same n ∙ h);
}

pub choose_master-same : (xs ys : List Text) → SameNames xs ys → choose_master xs ≡ choose_master ys
choose_master-same [] [] same = refl
choose_master-same [] (y ∷ ys) same = cc (same y, listed_first y ys)
choose_master-same (x ∷ xs) [] same = cc (same x, listed_first x xs)
choose_master-same (x ∷ xs) (y ∷ ys) same =
    let (m, e) = choose_master-some x xs in
    let (n, f) = choose_master-some y ys in
    let l = IsLeast-same m (x ∷ xs) (y ∷ ys) same (choose_master-IsLeast (x ∷ xs) m e) in
    e ∙ (ap some (IsLeast-unique m n (y ∷ ys) l (choose_master-IsLeast (y ∷ ys) n f)) ∙ sym f)

-- The least name of a set.
abbrev pub least_name : NameSet → Option Text
least_name = Quot.lift (hlevel) choose_master choose_master-same

-- What the calculation of the master answers for the least name.
abbrev pub result_of : Option Text → Result Text
result_of none = err (new_error (codes "Failed to retrieve list of Kuberhealthy pods"))
result_of (some m) = ok m

result_of-ok : (o : Option Text) (m : Text) → result_of o ≡ ok m → o ≡ some m
result_of-ok none m h = cc
result_of-ok (some n) m h = cc

found-result : (c : Cluster) (o : Option Text) (w : c.World) → (found_master c o w).0 ≡ result_of o
found-result c none w = refl
found-result c (some m) w = refl

-- CalculateMaster implements the choice of the least name of a set: whenever the names of the listed
-- pods make up the set, in whatever order and however often, it answers with the set's least name, or
-- with an error if there is none, and that name is one of the pods' and the least of them.
pub calculate_master-least_name :
    (c : Cluster) (w : c.World) (pods : List Pod) (s : NameSet)
    → (c.list_kuberhealthy_pods w).0 ≡ reply pods
    → s ≡ Quot.mk (pod_names pods)
    → ((calculate_master c w).0 ≡ result_of (least_name s))
      × ((m : Text) → (calculate_master c w).0 ≡ ok m → IsLeast m (pod_names pods))
unfolding calculate_master
calculate_master-least_name c w pods s listing named =
    let answered : (calculate_master c w).0 ≡ result_of (choose_master (pod_names pods)) =
      rw listing (found-result c (choose_master (pod_names pods)) (c.list_kuberhealthy_pods w).1) in
    (
      answered ∙ ap (λ (t : NameSet). result_of (least_name t)) (sym named),
      λ m h. choose_master-IsLeast (pod_names pods) m (result_of-ok _ m (sym answered ∙ h)),
    )
