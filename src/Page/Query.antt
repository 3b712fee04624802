-- ===== src/Page/Query.antt =====
-- The namespaces that a query asks for.
use kuberhealthy.Prelude.{
  ◌≡◌, refl, ap, ◌∙◌, false, not, List, [], ◌∷◌, select, All, Text, is_empty, has, split, join,
  split-join,
}
use kuberhealthy.Page.{requested_namespaces}

-- A name of a namespace is not empty and has no comma.
pub record IsNamespace (n : Text) : Type 0 where
  pub has_text : is_empty n ≡ false
  pub no_comma : has b',' n ≡ false

-- The parts of a query are the names, in order, with blank parts anywhere among them.
pub data IsPadded : (parts names : List Text) → Type 0 where
  no_parts : IsPadded [] []
  blank_part : {parts names : List Text} → IsPadded parts names → IsPadded ([] ∷ parts) names
  name_part :
      {parts names : List Text} (n : Text)
      → IsNamespace n
      → IsPadded parts names
      → IsPadded (n ∷ parts) (n ∷ names)

lacks :
    {parts names : List Text} → IsPadded parts names → All (λ (q : Text). has b',' q ≡ false) parts
lacks no_parts = tt
lacks (blank_part p) = (refl, lacks p)
lacks (name_part n h p) = (h.no_comma, lacks p)

select-names :
    {parts names : List Text}
    → IsPadded parts names
    → select (λ (s : Text). not (is_empty s)) parts ≡ names
select-names no_parts = refl
select-names (blank_part p) = select-names p
select-names (name_part n h p) = rw (h.has_text, select-names p) refl

requested-split :
    (t : Text) → requested_namespaces t ≡ select (λ (s : Text). not (is_empty s)) (split b',' t)
unfolding requested_namespaces split
requested-split [] = refl
requested-split (x ∷ t) = refl

-- A query that joins names of namespaces by commas, with blank parts anywhere among them, asks for
-- exactly these names, in order.
pub requested_namespaces-join :
    (parts names : List Text)
    → IsPadded parts names
    → requested_namespaces (join b',' parts) ≡ names
unfolding join split
requested_namespaces-join [] names p = requested-split [] ∙ select-names p
requested_namespaces-join (q ∷ parts) names p =
    let (no_comma, rest) = lacks p in
    requested-split (join b',' (q ∷ parts))
    ∙ (ap (select (λ (s : Text). not (is_empty s))) (split-join b',' q parts no_comma rest)
        ∙ select-names p)
