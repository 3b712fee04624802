-- ===== src/Api/Results.antt =====
-- Go's `(value, error)` results and panics, and code that acts on a cluster.
use kuberhealthy.Prelude.{
  Bool, true, false, ◌||◌, ◌⊎◌, inl, inr, ◌≡◌, refl, ◌++◌, Text, codes, contains,
}

-- What `k8sErrors.IsNotFound` and its like read from an error; an error made by `errors.New` has
-- none of the API server's reasons.
pub data Reason : Type 0 where
  not_found conflict other_reason : Reason

pub record Err : Type 0 where
  pub reason : Reason
  pub message : Text

pub data Result {ℓ} (A : Type ℓ) : Type ℓ where
  ok : A → Result A
  err : Err → Result A
  panic : Result A

-- `errors.New(message)`
abbrev pub new_error : Text → Err
new_error message = record { reason = other_reason; message = message }

-- `fmt.Errorf("prefix %w", err)` keeps the reason for `errors.As`.
abbrev pub wrap_error : Text → Err → Err
wrap_error prefix e = record e { message = prefix ++ e.message }

abbrev pub reason_not_found : Reason → Bool
reason_not_found not_found = true
reason_not_found _ = false

-- `k8sErrors.IsNotFound(err) || strings.Contains(err.Error(), "not found")`
unfoldable pub is_not_found : Err → Bool
is_not_found e = reason_not_found e.reason || contains e.message (codes "not found")

-- What a call of a client library returns: it does not panic.
pub data Reply {ℓ} (A : Type ℓ) : Type ℓ where
  reply : A → Reply A
  refuse : Err → Reply A

abbrev pub Call : Type 0 → Type 0 → Type 0
Call W A = W → Reply A × W

abbrev pub Action : Type 0 → Type 0 → Type 0
Action W A = W → Result A × W

abbrev pub answer : {A : Type 0} → Reply A → Result A
answer (reply a) = ok a
answer (refuse e) = err e

-- `v, err := m()`: the code goes on with both. A panic does not stop here.
abbrev pub settle : {A : Type 0} → Result A → Result (Result A)
settle panic = panic
settle r = ok r

module _ {W A : Type 0} where
  abbrev pub pure : A → Action W A
  pure a w = (ok a, w)

  abbrev pub call : Call W A → Action W A
  call m w = let (r, w') = m w in (answer r, w')

  abbrev pub throw : Err → Action W A
  throw e w = (err e, w)

  abbrev pub fault : Action W A
  fault w = (panic, w)

  abbrev pub attempt : Action W A → Action W (Result A)
  attempt m w = let (r, w') = m w in (settle r, w')

module _ {W A B : Type 0} where
  abbrev pub and_then : Result A → (A → Action W B) → Action W B
  and_then (ok a) f w = f a w
  and_then (err e) f w = (err e, w)
  and_then panic f w = (panic, w)

  infixl 5 ◌>>=◌ ◌>>◌
  abbrev pub ◌>>=◌ : Action W A → (A → Action W B) → Action W B
  ◌>>=◌ m f w = let (r, w') = m w in and_then r f w'

  abbrev pub ◌>>◌ : Action W A → Action W B → Action W B
  m >> n = m >>= λ _. n

abbrev pub map_err : {A : Type 0} → (Err → Err) → Result A → Result A
map_err f (err e) = err (f e)
map_err f r = r

module _ {W A : Type 0} where
  -- `if err != nil { return f(err) }`
  abbrev pub map_error : (Err → Err) → Action W A → Action W A
  map_error f m w = let (r, w') = m w in (map_err f r, w')

pub Reply-cases {ℓ} :
    {A : Type ℓ} (r : Reply A) → ((a : A) × (r ≡ reply a)) ⊎ ((e : Err) × (r ≡ refuse e))
Reply-cases (reply a) = inl (a, refl)
Reply-cases (refuse e) = inr (e, refl)

pub answer-ok : {A : Type 0} (r : Reply A) (a : A) → answer r ≡ ok a → r ≡ reply a
answer-ok (reply b) a h = cc
answer-ok (refuse e) a h = cc
