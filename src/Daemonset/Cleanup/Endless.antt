-- ===== src/Daemonset/Cleanup/Endless.antt =====
-- The cleanup of the daemonset check with more than one page of daemonsets.
use kuberhealthy.Prelude.{ℕ, zero, suc, ◌≡◌, refl, false, none, List, [], ◌++◌, Text, is_empty}
use kuberhealthy.Api.Results.{reply, Call}
use kuberhealthy.Daemonset.Steps.{DsPage, DsApi}
use kuberhealthy.Daemonset.Cleanup.{Removal, get_all_daemonsets, clean_up_daemonsets}

module _ (api : DsApi) (list_labelled : Call api.World DsPage) where
  -- Every listing answers with a first page that is not the last.
  abbrev pub HasMore : Type 0
  HasMore =
      (w : api.World)
      → (page : DsPage) × ((list_labelled w).0 ≡ reply page) × (is_empty page.continue ≡ false)

  get_all_daemonsets-none :
      (listings : ℕ) (all_ds : List Text) (w : api.World)
      → HasMore
      → (get_all_daemonsets api list_labelled listings all_ds w).0 ≡ none
  unfolding get_all_daemonsets
  get_all_daemonsets-none zero all_ds w more = refl
  get_all_daemonsets-none (suc listings) all_ds w more =
      let (page, e, f) = more w in
      rw (e, f, get_all_daemonsets)
        (get_all_daemonsets-none listings (all_ds ++ page.names) (list_labelled w).1 more)

  -- With daemonsets on more than one page, cleanUp does not return, however many listings it makes.
  pub clean_up-endless :
      (polls pages listings : ℕ) (received : (name : Text) → Removal) (w : api.World)
      → HasMore
      → (clean_up_daemonsets api list_labelled polls pages received listings w).0 ≡ none
  unfolding clean_up_daemonsets
  clean_up-endless polls pages listings received w more =
      rw (get_all_daemonsets-none listings [] w more) refl
