-- ===== src/Quota.antt =====
-- The resource quota check, a checker pod of its own (cmd/resource-quota-check/resources.go). Whether a
-- use reaches the threshold of a limit, a quotient of floating point numbers, is an argument. The workers
-- of the namespaces run at once, so that the order of the errors is that of any list of the namespaces.
pub mod Targets
use kuberhealthy.Prelude.{
  ℕ, Bool, true, false, not, ◌&&◌, List, [], ◌∷◌, ◌++◌, any, Text, text_eq, codes, is_empty,
  if◌then◌else◌,
}
use kuberhealthy.Api.Results.{Err, Reply, reply, refuse}

-- A resource quota: what is used, and the hard limits, in thousandths.
pub record ResourceQuota : Type 0 where
  pub used_cpu : ℕ
  pub limit_cpu : ℕ
  pub used_memory : ℕ
  pub limit_memory : ℕ

pub record QuotaConfig : Type 0 where
  pub blacklist : List Text
  pub whitelist : List Text
  pub reaches : (used limit : ℕ) → Bool

-- `contains`
unfoldable pub is_listed : Text → List Text → Bool
is_listed s list = any (text_eq s) list

abbrev pub reached : Bool → (resource namespace : Text) → List Text
reached true resource namespace =
    (resource ++ codes " for " ++ namespace ++ codes " namespace has reached threshold") ∷ []
reached false resource namespace = []

module _ (config : QuotaConfig) where
  abbrev pub quota_errors : (namespace : Text) → ResourceQuota → List Text
  quota_errors namespace rq =
      reached (config.reaches rq.used_cpu rq.limit_cpu) (codes "cpu") namespace
      ++ reached (config.reaches rq.used_memory rq.limit_memory) (codes "memory") namespace

  abbrev pub quotas_errors : (namespace : Text) → List ResourceQuota → List Text
  quotas_errors namespace [] = []
  quotas_errors namespace (rq ∷ quotas) =
      quota_errors namespace rq ++ quotas_errors namespace quotas

  -- `examineResouceQuotasForNamespace`, for what its listing answers
  unfoldable pub examine_resource_quotas_for_namespace :
      (namespace : Text) → Reply (List ResourceQuota) → List Text
  examine_resource_quotas_for_namespace namespace (refuse e) =
      (codes "error occurred listing resource quotas for "
        ++ namespace
        ++ codes " namespace "
        ++ e.message)
      ∷ []
  examine_resource_quotas_for_namespace namespace (reply quotas) = quotas_errors namespace quotas

  -- `createWorkerForNamespaceResourceQuotaCheck`
  unfoldable pub work_on_namespace : (namespace : Text) → Reply (List ResourceQuota) → List Text
  work_on_namespace namespace listed =
      if not (is_empty config.blacklist) && is_listed namespace config.blacklist
      then []
      else if not (is_empty config.whitelist) && not (is_listed namespace config.whitelist)
      then []
      else examine_resource_quotas_for_namespace namespace listed

  -- `examineResourceQuotas`, for the namespaces of its listing
  unfoldable pub examine_resource_quotas :
      (list_quotas : Text → Reply (List ResourceQuota)) → (namespaces : List Text) → List Text
  examine_resource_quotas list_quotas [] = []
  examine_resource_quotas list_quotas (ns ∷ namespaces) =
      work_on_namespace ns (list_quotas ns) ++ examine_resource_quotas list_quotas namespaces

-- What `runResourceQuotaCheck` reports, with what its `select` receives first.
pub data QuotaReceived : Type 0 where
  examined interrupted timed_out : QuotaReceived

pub data QuotaReport : Type 0 where
  quota_success quota_unreported : QuotaReport
  quota_failure : List Text → QuotaReport

abbrev pub report_of_errors : List Text → QuotaReport
report_of_errors [] = quota_success
report_of_errors (e ∷ errors) = quota_failure (e ∷ errors)

unfoldable pub run_resource_quota_check :
    QuotaConfig
    → (list_quotas : Text → Reply (List ResourceQuota)) → Reply (List Text)
    → QuotaReceived
    → QuotaReport
run_resource_quota_check config list_quotas (refuse e) r =
    quota_failure ((codes "error occurred listing namespaces from the cluster: " ++ e.message) ∷ [])
run_resource_quota_check config list_quotas (reply namespaces) examined =
    report_of_errors (examine_resource_quotas config list_quotas namespaces)
run_resource_quota_check config list_quotas (reply namespaces) interrupted = quota_unreported
run_resource_quota_check config list_quotas (reply namespaces) timed_out =
    quota_failure (codes "Check took too long and timed out." ∷ [])
