-- ===== src/Resources.antt =====
-- How kuberhealthy keeps up with the khcheck resources (cmd/kuberhealthy/kuberhealthy.go): the
-- reaper of khstates without an owner, and the scan for changed khchecks. Logging is left out.
pub mod Rogue
pub mod Scan
use kuberhealthy.Prelude.{
  ℕ, Bool, true, false, not, ◌&&◌, ◌||◌, Option, none, some, List, [], ◌∷◌, ◌++◌, any, Text,
  text_eq, is_empty, Dict, lookup, insert, delete, if◌then◌else◌,
}
use kuberhealthy.Api.Results.{
  Err, Result, ok, err, panic, Call, Action, pure, call, map_error, wrap_error, and_then, ◌>>=◌,
}
use kuberhealthy.Api.Types.{KhState}
use kuberhealthy.Prelude.{codes}

-- A name in a namespace, which is all that is read of a khcheck or a khjob here.
pub record Named : Type 0 where
  pub name : Text
  pub namespace : Text

-- The calls of the khstate reaper. An error of a deletion is only logged.
pub record StatesApi : Type 1 where
  pub World : Type 0
  pub list_states : Call World (List KhState)
  pub list_checks : Call World (List Named)
  pub list_jobs : Call World (List Named)
  pub delete_state : KhState → World → World

-- `kc.GetName() == khState.GetName() && kc.GetNamespace() == khState.GetNamespace()`
abbrev pub is_owner : KhState → Named → Bool
is_owner s n = text_eq n.name s.name && text_eq n.namespace s.namespace

-- `!foundKHCheck && !foundKHJob`
unfoldable pub is_rogue : (checks jobs : List Named) → KhState → Bool
is_rogue checks jobs s = not (any (is_owner s) checks) && not (any (is_owner s) jobs)

module _ (api : StatesApi) where
  unfoldable pub remove_rogues : (checks jobs : List Named) → List KhState → api.World → api.World
  remove_rogues checks jobs [] w = w
  remove_rogues checks jobs (s ∷ states) w =
      remove_rogues checks jobs states (if is_rogue checks jobs s then api.delete_state s w else w)

  -- `reapKHStateResources`
  unfoldable pub reap_kh_state_resources : Action api.World (Unit {0})
  reap_kh_state_resources = do
    states ←
        map_error (wrap_error (codes "khState reaper: error listing khStates for reaping: "))
          (call api.list_states)
    checks ←
        map_error (wrap_error (codes "khState reaper: error listing unstructured khChecks: "))
          (call api.list_checks)
    jobs ←
        map_error (wrap_error (codes "khState reaper: error listing khJobs for reaping: "))
          (call api.list_jobs)
    λ w. (ok tt, remove_rogues checks jobs states w)

-- The specification of a khcheck. `Spec` stands for the pod's, which is compared as a whole.
pub record CheckConfig : Type 0 where
  pub run_interval : Text
  pub timeout : Text
  pub pod_spec : Text
  -- `none` is the nil map.
  pub extra_labels : Option (Dict Text)
  pub extra_annotations : Option (Dict Text)

pub record KhCheck : Type 0 where
  pub name : Text
  pub namespace : Text
  pub spec : CheckConfig

abbrev pub map_name : KhCheck → Text
map_name kc = kc.namespace ++ b'/' ∷ kc.name

-- `reflect.DeepEqual` of two maps of texts. A map that is read from the API server is a list in the order
-- of its keys, so that maps with the same entries are the same list.
unfoldable pub same_entries : Dict Text → Dict Text → Bool
same_entries [] [] = true
same_entries [] (e ∷ b) = false
same_entries (e ∷ a) [] = false
same_entries ((k, v) ∷ a) ((j, u) ∷ b) = (text_eq k j && text_eq v u) && same_entries a b

-- `reflect.DeepEqual` tells a nil map from an empty one.
abbrev pub is_same_map : Option (Dict Text) → Option (Dict Text) → Bool
is_same_map none none = true
is_same_map none (some b) = false
is_same_map (some a) none = false
is_same_map (some a) (some b) = same_entries a b

-- The five comparisons of a known specification with the listed one.
unfoldable pub is_same_config : CheckConfig → CheckConfig → Bool
is_same_config a b =
    (text_eq a.run_interval b.run_interval && text_eq a.timeout b.timeout)
    && ((is_same_map a.extra_labels b.extra_labels
          && is_same_map a.extra_annotations b.extra_annotations)
        && text_eq a.pod_spec b.pod_spec)

-- The deletion loop, which gives the map and `foundChange`. `rest` is what a range has not visited.
unfoldable pub purge :
    List KhCheck → (rest : Dict CheckConfig) → Dict CheckConfig × Bool → Dict CheckConfig × Bool
purge items [] s = s
purge items ((k, c) ∷ rest) (known, found) =
    if any (λ (kc : KhCheck). text_eq (map_name kc) k) items
    then purge items rest (known, found)
    else purge items rest (delete k known, true)

-- What a khcheck in the listing changes. Of a name that is new, the specification is known at once,
-- so that the comparisons find it the same.
abbrev pub is_changed : Option CheckConfig → CheckConfig → Bool
is_changed none c = true
is_changed (some old) c = not (is_same_config old c)

-- The scan of the listing.
unfoldable pub scan_items : List KhCheck → Dict CheckConfig × Bool → Dict CheckConfig × Bool
scan_items [] s = s
scan_items (kc ∷ items) (known, found) =
    if is_empty kc.namespace || is_empty kc.name
    then scan_items items (known, found)
    else scan_items items (
      insert (map_name kc) kc.spec known,
      found || is_changed (lookup (map_name kc) known) kc.spec,
    )

-- One round of the loop of `monitorExternalChecks`, for a listing that succeeds: the known settings,
-- and whether a change is signalled.
unfoldable pub scan : Dict CheckConfig → List KhCheck → Dict CheckConfig × Bool
scan known items = scan_items items (purge items known (known, false))
