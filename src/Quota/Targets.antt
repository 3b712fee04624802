-- ===== src/Quota/Targets.antt =====
-- Which namespaces decide the report of the resource quota check.
use kuberhealthy.Prelude.{
  ◌≡◌, refl, sym, ◌∙◌, ◌↔◌, Bool, true, false, not, ◌&&◌, ◌||◌, List, [], ◌∷◌, ◌++◌, all, Text,
  is_empty, arith,
}
use kuberhealthy.Api.Results.{Reply, reply, refuse}
use kuberhealthy.Quota.{
  ResourceQuota, QuotaConfig, is_listed, reached, quotas_errors,
  examine_resource_quotas_for_namespace, work_on_namespace, examine_resource_quotas, examined,
  quota_success, report_of_errors, run_resource_quota_check,
}

module _ (config : QuotaConfig) where
  -- The comment of the code: the blacklist goes before the whitelist, and an empty whitelist has
  -- every namespace.
  abbrev pub is_target : Text → Bool
  is_target ns =
      not (is_listed ns config.blacklist)
      && (is_empty config.whitelist || is_listed ns config.whitelist)

  abbrev pub is_within : ResourceQuota → Bool
  is_within rq =
      not (config.reaches rq.used_cpu rq.limit_cpu)
      && not (config.reaches rq.used_memory rq.limit_memory)

  abbrev pub is_good : Reply (List ResourceQuota) → Bool
  is_good (refuse e) = false
  is_good (reply quotas) = all is_within quotas

  empty-append : (xs ys : List Text) → is_empty (xs ++ ys) ≡ (is_empty xs && is_empty ys)
  empty-append [] ys = refl
  empty-append (x ∷ xs) ys = refl

  empty-reached : (b : Bool) (resource ns : Text) → is_empty (reached b resource ns) ≡ not b
  empty-reached true resource ns = refl
  empty-reached false resource ns = refl

  quotas-empty :
      (ns : Text) (quotas : List ResourceQuota)
      → is_empty (quotas_errors config ns quotas) ≡ all is_within quotas
  quotas-empty ns [] = refl
  quotas-empty ns (rq ∷ quotas) =
      rw (empty-append, empty-append, empty-reached, empty-reached, quotas-empty ns quotas)
        (ground arith)

  examine-good :
      (ns : Text) (r : Reply (List ResourceQuota))
      → is_empty (examine_resource_quotas_for_namespace config ns r) ≡ is_good r
  unfolding examine_resource_quotas_for_namespace
  examine-good ns (refuse e) = refl
  examine-good ns (reply quotas) = quotas-empty ns quotas

  unlisted : (ns : Text) (list : List Text) → is_empty list ≡ true → is_listed ns list ≡ false
  unfolding is_listed
  unlisted ns [] h = refl
  unlisted ns (x ∷ list) h = cc

  work-good :
      (ns : Text) (r : Reply (List ResourceQuota))
      → is_empty (work_on_namespace config ns r) ≡ (not (is_target ns) || is_good r)
  unfolding work_on_namespace
  work-good ns r =
      ground (arith, examine-good ns r, unlisted ns config.blacklist, unlisted ns config.whitelist)

  all-good :
      (list_quotas : Text → Reply (List ResourceQuota)) (namespaces : List Text)
      → is_empty (examine_resource_quotas config list_quotas namespaces)
        ≡ all (λ ns. not (is_target ns) || is_good (list_quotas ns)) namespaces
  unfolding examine_resource_quotas
  all-good list_quotas [] = refl
  all-good list_quotas (ns ∷ namespaces) =
      rw (empty-append, work-good ns (list_quotas ns), all-good list_quotas namespaces) refl

success-empty :
    (errors : List Text) → report_of_errors errors ≡ quota_success → is_empty errors ≡ true
success-empty [] h = refl
success-empty (e ∷ errors) h = cc

empty-success :
    (errors : List Text) → is_empty errors ≡ true → report_of_errors errors ≡ quota_success
empty-success [] h = refl
empty-success (e ∷ errors) h = cc

-- With the namespaces listed and examined in time, the resource quota check reports success exactly if
-- the quotas of every namespace that it is meant to look at, one that is not on the blacklist, and is
-- on the whitelist if there is one, could be listed, and none of them has reached the threshold.
pub run_resource_quota_check-success :
    (config : QuotaConfig) (list_quotas : Text → Reply (List ResourceQuota))
    (namespaces : List Text)
    → (run_resource_quota_check config list_quotas (reply namespaces) examined ≡ quota_success)
      ↔ (all (λ ns. not (is_target config ns) || is_good config (list_quotas ns)) namespaces ≡ true)
unfolding run_resource_quota_check
run_resource_quota_check-success config list_quotas namespaces =
    let errors = examine_resource_quotas config list_quotas namespaces in
    let good = all-good config list_quotas namespaces in
    (λ h. sym good ∙ success-empty errors h, λ h. empty-success errors (good ∙ h))
