-- ===== src/Daemonset/Cleanup.antt =====
-- The cleanup of the daemonset check (cmd/daemonset-check/cleanup.go). The listing by the labels of the
-- check, which asks for no more than the first page, is an argument. Logging is left out.
pub mod Endless
use kuberhealthy.Prelude.{
  ℕ, zero, suc, Option, none, some, List, [], ◌∷◌, ◌++◌, Text, codes, is_empty, if◌then◌else◌,
}
use kuberhealthy.Api.Results.{Err, wrap_error, Reply, reply, refuse, Call}
use kuberhealthy.Daemonset.Steps.{DsPage, DsApi, Received, Returned, go_on, remove}

-- What the three `select`s of a removal receive first, for the daemonset of a name.
pub record Removal : Type 0 where
  pub asked : Received
  pub ds_gone : Received
  pub pods_gone : Received

module _ (api : DsApi) (list_labelled : Call api.World DsPage) where
  -- The loop of `getAllDaemonsets`, for a number of listings: `none` if they were too few.
  unfoldable pub get_all_daemonsets :
      (listings : ℕ) (all_ds : List Text) → api.World → Option (Reply (List Text)) × api.World
  get_all_daemonsets zero all_ds w = (none, w)
  get_all_daemonsets (suc listings) all_ds w =
      let w₁ = (list_labelled w).1 in
      elim (list_labelled w).0 [
        | refuse e ↦ (some (refuse (wrap_error (codes "Error getting all daemonsets: ") e)), w₁)
        | reply page ↦
            let rest = get_all_daemonsets listings (all_ds ++ page.names) w₁ in
            if is_empty page.continue then (some (reply (all_ds ++ page.names)), w₁) else rest
      ]

  module _ (polls pages : ℕ) (received : (name : Text) → Removal) where
    -- The loop of `cleanUp`
    unfoldable pub remove_all : List Text → api.World → Returned × api.World
    remove_all [] w = (some none, w)
    remove_all (name ∷ names) w =
        let r = received name in
        go_on api [] (remove api polls pages name r.asked r.ds_gone r.pods_gone w)
          (remove_all names)

    abbrev pub remove_listed : Option (Reply (List Text)) × api.World → Returned × api.World
    remove_listed (none, w) = (none, w)
    remove_listed (some (refuse e), w) = (some (some e), w)
    remove_listed (some (reply names), w) = remove_all names w

    -- `cleanUp`
    unfoldable pub clean_up_daemonsets : (listings : ℕ) → api.World → Returned × api.World
    clean_up_daemonsets listings w = remove_listed (get_all_daemonsets listings [] w)
