-- ===== src/Api/Demo.antt =====
-- A small cluster that nobody else writes to, to evaluate the program on: a map of khstates with
-- resource versions, sets of khchecks and khjobs, and pods by selector. It counts the updates and
-- the time slept.
use kuberhealthy.Prelude.{
  ℕ, ◌+◌, ◌≡◌, refl, sym, ap, ◌∙◌, inl, inr, Option, none, some, List, [], ◌∷◌, ◌++◌, any, Text,
  text_eq, text_eq_refl, codes, Dict, lookup, insert, lookup-insert, ◌==◌, if◌then◌else◌,
  Bool-cases,
}
use kuberhealthy.Api.Results.{Err, not_found, conflict, Reply, reply, refuse, Call}
use kuberhealthy.Api.Types.{KhState, Pod}
use kuberhealthy.Api.Cluster.{Cluster, IsQuiet, sent}

pub record DemoWorld : Type 0 where
  pub clock : ℕ
  pub states : Dict KhState
  pub checks : List Text
  pub jobs : List Text
  pub pods : Dict (List Pod)
  pub masters : List Pod
  pub writes : ℕ
  pub slept : ℕ

abbrev pub demo_key : (namespace name : Text) → Text
demo_key namespace name = namespace ++ b'/' ∷ name

abbrev missing : Err
missing = record { reason = not_found; message = codes "not found" }

abbrev stale : Err
stale = record { reason = conflict; message = codes "the object has been modified" }

abbrev stored_reply : Option KhState → Reply KhState
stored_reply none = refuse missing
stored_reply (some s) = reply s

unfoldable pub demo_get : (namespace name : Text) → Call DemoWorld KhState
unfolding lookup
demo_get namespace name w = (stored_reply (lookup (demo_key namespace name) w.states), w)

-- What the server keeps of a written khstate: the version goes up.
abbrev kept : Text → KhState → KhState
kept namespace s = record s {
  namespace = namespace;
  resource_version = s.resource_version + 1;
  spec = sent s.spec;
}

abbrev put_state : Text → KhState → DemoWorld → Reply KhState × DemoWorld
put_state namespace s w = (
  reply (kept namespace s),
  record w { states = insert (demo_key namespace s.name) (kept namespace s) w.states },
)

abbrev update_over : Text → KhState → DemoWorld → Option KhState → Reply KhState × DemoWorld
update_over namespace s w none = (refuse missing, record w { writes = w.writes + 1 })
update_over namespace s w (some old) =
    if old.resource_version == s.resource_version
    then put_state namespace s (record w { writes = w.writes + 1 })
    else (refuse stale, record w { writes = w.writes + 1 })

unfoldable pub demo_update : (namespace : Text) → KhState → Call DemoWorld KhState
unfolding lookup insert
demo_update namespace s w = update_over namespace s w (lookup (demo_key namespace s.name) w.states)

unfoldable pub demo_create : (namespace : Text) → KhState → Call DemoWorld KhState
unfolding insert
demo_create namespace s w = put_state namespace s w

abbrev exists_in : List Text → Text → DemoWorld → Reply (Unit {0}) × DemoWorld
exists_in keys key w = (if any (text_eq key) keys then reply tt else refuse missing, w)

abbrev listed_pods : Option (List Pod) → Reply (List Pod)
listed_pods none = reply []
listed_pods (some pods) = reply pods

unfoldable pub demo_find :
    (DemoWorld → List Text) → (namespace name : Text) → Call DemoWorld (Unit {0})
unfolding text_eq
demo_find keys namespace name w = exists_in (keys w) (demo_key namespace name) w

unfoldable pub demo_pods : Text → Call DemoWorld (List Pod)
unfolding lookup
demo_pods selector w = (listed_pods (lookup selector w.pods), w)

abbrev pub demo : Cluster
demo = record {
  World = DemoWorld;
  now = λ w. w.clock;
  sleep = λ d w. record w { clock = w.clock + d; slept = w.slept + d };
  get_state = demo_get;
  create_state = demo_create;
  update_state = demo_update;
  get_check = demo_find (λ w. w.checks);
  get_job = demo_find (λ w. w.jobs);
  list_kuberhealthy_pods = λ w. (reply w.masters, w);
  list_pods = demo_pods;
}

demo_get-put :
    (ns : Text) (s : KhState) (w : DemoWorld)
    → (demo_get ns s.name (put_state ns s w).1).0 ≡ reply (kept ns s)
unfolding demo_get
demo_get-put ns s w = rw (
  lookup-insert (demo_key ns s.name) (demo_key ns s.name) (kept ns s) w.states,
  text_eq_refl (demo_key ns s.name),
)

-- What a write that is answered leaves behind.
abbrev Kept : Text → KhState → KhState → Reply KhState × DemoWorld → Type 0
Kept ns s t (r, w) = r ≡ reply t → ((demo_get ns s.name w).0 ≡ reply t) × (t.spec ≡ sent s.spec)

put_state-Kept : (ns : Text) (s t : KhState) (w : DemoWorld) → Kept ns s t (put_state ns s w)
put_state-Kept ns s t w = λ h.
    let same : kept ns s ≡ t = cc in
    (demo_get-put ns s w ∙ h, ap (λ (u : KhState). u.spec) (sym same))

update_over-Kept :
    (ns : Text) (s t : KhState) (w : DemoWorld) (o : Option KhState)
    → Kept ns s t (update_over ns s w o)
update_over-Kept ns s t w none = λ h. cc
update_over-Kept ns s t w (some old) =
    elim (Bool-cases (old.resource_version == s.resource_version)) [
      | inl fresh ↦ rw fresh (put_state-Kept ns s t (record w { writes = w.writes + 1 }))
      | inr old_version ↦ rw old_version (λ h. cc)
    ]

demo_update-Kept : (ns : Text) (s t : KhState) (w : DemoWorld) → Kept ns s t (demo_update ns s w)
unfolding demo_update
demo_update-Kept ns s t w = update_over-Kept ns s t w (lookup (demo_key ns s.name) w.states)

demo_create-Kept : (ns : Text) (s t : KhState) (w : DemoWorld) → Kept ns s t (demo_create ns s w)
unfolding demo_create
demo_create-Kept ns s t w = put_state-Kept ns s t w

demo_get_keeps : (ns n : Text) (w : DemoWorld) → (demo_get ns n w).1 ≡ w
unfolding demo_get
demo_get_keeps ns n w = refl

-- The demo cluster keeps the contract of a cluster that nobody else writes to.
pub demo-IsQuiet : IsQuiet demo
demo-IsQuiet = record {
  get_keeps = demo_get_keeps;
  update_written = demo_update-Kept;
  create_written = demo_create-Kept;
}
