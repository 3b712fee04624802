-- ===== src/Store/Uuid.antt =====
-- `setUUID` of pkg/checks/external/main.go: whitelisting the UUID of the coming run.
use kuberhealthy.Prelude.{
  ℕ, zero, suc, ◌≡◌, ◌≢◌, ap, sym, inl, inr, true, Bool-cases, [], ◌++◌, Text, codes, text_eq,
  eq_of_text_eq, if◌then◌else◌,
}
use kuberhealthy.Api.Results.{
  Err, Result, ok, err, panic, new_error, wrap_error, is_not_found, reply, refuse, answer,
  answer-ok, and_then, Action, pure, call, throw, fault, attempt, ◌>>=◌, ◌>>◌,
}
use kuberhealthy.Api.Types.{
  KhWorkload, WorkloadDetails, KhState, zero_details, new_workload_details, new_kuberhealthy_state,
}
use kuberhealthy.Api.Ensures.{Ensures, Ensures-and_then, Ensures-settle}
use kuberhealthy.Api.Cluster.{Cluster, IsQuiet}
use kuberhealthy.Store.{second, wait}

-- The fields of the checker that setUUID reads.
pub record Checker : Type 0 where
  pub check_name : Text
  pub namespace : Text
  pub hostname : Text
  pub kh_workload : KhWorkload

abbrev pub with_uuid : Text → KhState → KhState
with_uuid uuid s = record s { spec = record s.spec { current_uuid = uuid } }

-- The zero value, which a failed get returns beside its error.
abbrev zero_state : KhState
zero_state = record { name = []; namespace = []; resource_version = 0; spec = zero_details }

abbrev state_or_zero : Result KhState → KhState
state_or_zero (ok s) = s
state_or_zero _ = zero_state

-- `return err` of an earlier call.
abbrev return_error : {W : Type 0} → Result KhState → Action W (Unit {0})
return_error (ok s) = pure tt
return_error (err e) = throw e
return_error panic = fault

module _ (c : Cluster) (ext : Checker) (uuid : Text) where
  abbrev get_kh_state : Action c.World KhState
  get_kh_state = call (c.get_state ext.namespace ext.check_name)

  abbrev update_uuid : KhState → Action c.World KhState
  update_uuid s = call (c.update_state ext.namespace (with_uuid uuid s))

  -- The khstate for a check that has none yet; "0s" is `time.Duration(0).String()`.
  unfoldable pub first_state : KhState
  unfolding new_kuberhealthy_state new_workload_details
  first_state =
      record (new_kuberhealthy_state ext.check_name (record (new_workload_details ext.kh_workload) {
        namespace = ext.namespace;
        authoritative_pod = ext.hostname;
        ok = true;
        current_uuid = uuid;
        run_duration = codes "0s";
      })) { namespace = ext.namespace }

  -- A round of the verifying loop that saw another UUID: fetch and set it again, errors only logged.
  abbrev set_again : Action c.World (Unit {0})
  set_again = do
    wait c second
    r ← attempt get_kh_state
    attempt (update_uuid (state_or_zero r))
    pure tt

  -- One round of the loop, before the rest of it: `break` where the UUID is the one that was set.
  abbrev verify_round :
      (rest : Action c.World (Unit {0})) → Result KhState → Action c.World (Unit {0})
  verify_round rest (ok s) = if text_eq uuid s.spec.current_uuid then pure tt else set_again >> rest
  verify_round rest (err e) = wait c second >> rest
  verify_round rest panic = fault

  -- The verifying loop; `left` is `maxTries - tries`.
  unfoldable pub verify : (left : ℕ) → Action c.World (Unit {0})
  verify zero = throw (new_error (codes "failed to verify uuid " ++ uuid))
  verify (suc left) = do r ← attempt get_kh_state; verify_round (verify left) r

  abbrev create_first : Action c.World (Unit {0})
  create_first = do call (c.create_state ext.namespace first_state); pure tt

  -- With the khstate as it was fetched: the error of the first update is what is returned in the
  -- end.
  unfoldable pub set_fetched : Result KhState → Action c.World (Unit {0})
  set_fetched panic = fault
  set_fetched (err e) =
      if is_not_found e
      then create_first
      else throw (wrap_error (codes "error setting uuid for check " ++ ext.check_name) e)
  set_fetched (ok s) = do first ← attempt (update_uuid s); verify 9; return_error first

  unfoldable pub set_uuid : Action c.World (Unit {0})
  set_uuid = do r ← attempt get_kh_state; set_fetched r

-- A get of the check's khstate answers with the UUID.
abbrev pub Whitelisted : (c : Cluster) → Checker → Text → c.World → Type 0
Whitelisted c ext uuid w =
    (s : KhState) × ((c.get_state ext.namespace ext.check_name w).0 ≡ reply s)
    × (s.spec.current_uuid ≡ uuid)

module _ (c : Cluster) (quiet : IsQuiet c) (ext : Checker) (uuid : Text) where
  abbrev P : c.World → Type 0
  P = Whitelisted c ext uuid

  verify_round-Ensures :
      (rest : Action c.World (Unit {0})) (r : Result KhState) (w : c.World)
      → ((v : c.World) → Ensures P (rest v))
      → answer (c.get_state ext.namespace ext.check_name w).0 ≡ r
      → Ensures P (verify_round c ext uuid rest r w)
  verify_round-Ensures rest (ok s) w next same =
      elim (Bool-cases (text_eq uuid s.spec.current_uuid)) [
        | inl found ↦ rw found (λ _. (s, answer-ok _ s same, sym (eq_of_text_eq _ _ found)))
        | inr other ↦
            rw other (Ensures-and_then P (set_again c ext uuid w).0 (λ _. rest) _ (λ _ _. next _))
      ]
  verify_round-Ensures rest (err e) w next same = next (c.sleep second w)
  verify_round-Ensures rest panic w next same = λ h. cc

  verify-Ensures : (left : ℕ) (w : c.World) → Ensures P (verify c ext uuid left w)
  unfolding verify
  verify-Ensures zero w = λ h. cc
  verify-Ensures (suc left) w =
      Ensures-settle P _ (answer (c.get_state ext.namespace ext.check_name w).0) _ λ r' same.
        verify_round-Ensures (verify c ext uuid left) r' _ (verify-Ensures left)
          (rw quiet.get_keeps same)

  return_error-Ensures : (r : Result KhState) (w : c.World) → P w → Ensures P (return_error r w)
  return_error-Ensures (ok s) w h = λ _. h
  return_error-Ensures (err e) w h = λ k. cc
  return_error-Ensures panic w h = λ k. cc

  create_first-Ensures : (w : c.World) → Ensures P (create_first c ext uuid w)
  unfolding first_state
  create_first-Ensures w =
      let first = first_state c ext uuid in
      Ensures-and_then P (answer (c.create_state ext.namespace first w).0) (λ _. pure tt) _
        λ t created _.
          let (read, same) = quiet.create_written ext.namespace first t w (answer-ok _ t created) in
          (t, read, ap (λ (d : WorkloadDetails). d.current_uuid) same)

  set_fetched-Ensures : (r : Result KhState) (w : c.World) → Ensures P (set_fetched c ext uuid r w)
  unfolding set_fetched
  set_fetched-Ensures panic w = λ h. cc
  set_fetched-Ensures (err e) w = elim (Bool-cases (is_not_found e)) [
    | inl missing ↦ rw missing (create_first-Ensures w)
    | inr other ↦ rw other (λ h. cc)
  ]
  set_fetched-Ensures (ok s) w =
      Ensures-settle P _ (answer (c.update_state ext.namespace (with_uuid uuid s) w).0) _ λ r _.
        Ensures-and_then P (verify c ext uuid 9 (update_uuid c ext uuid s w).1).0
          (λ _. return_error r) _
          λ u done. return_error-Ensures r _ (verify-Ensures 9 (update_uuid c ext uuid s w).1 done)

-- With nobody else writing, setUUID returns without an error only if a get of the check's khstate
-- then answers with the UUID that it was given, whether the khstate was there before or not.
pub set_uuid-Whitelisted :
    (c : Cluster) (ext : Checker) (uuid : Text) (w : c.World)
    → IsQuiet c
    → (set_uuid c ext uuid w).0 ≡ ok tt
    → Whitelisted c ext uuid (set_uuid c ext uuid w).1
unfolding set_uuid
set_uuid-Whitelisted c ext uuid w quiet =
    Ensures-settle (Whitelisted c ext uuid) (set_fetched c ext uuid)
      (answer (c.get_state ext.namespace ext.check_name w).0) _
      λ r _. set_fetched-Ensures c quiet ext uuid r _

not_ok_of_throw :
    {W : Type 0} (r : Result (Unit {0})) (e : Err) (w : W) → (and_then r (λ _. throw e) w).0 ≢ ok tt
not_ok_of_throw (ok u) e w = λ h. cc
not_ok_of_throw (err f) e w = λ h. cc
not_ok_of_throw panic e w = λ h. cc

-- If the khstate exists and the first update of it fails, setUUID does not return success, even
-- where a later try sets the UUID and the verifying get confirms it.
pub set_uuid-first_error :
    (c : Cluster) (ext : Checker) (uuid : Text) (s : KhState) (e : Err) (w : c.World)
    → (c.get_state ext.namespace ext.check_name w).0 ≡ reply s
    → (c.update_state ext.namespace
        (with_uuid uuid s)
        (c.get_state ext.namespace ext.check_name w).1).0
      ≡ refuse e
    → (set_uuid c ext uuid w).0 ≢ ok tt
unfolding set_uuid set_fetched
set_uuid-first_error c ext uuid s e w got refused =
    rw (got, refused) (not_ok_of_throw (verify c ext uuid 9 _).0 e _)
