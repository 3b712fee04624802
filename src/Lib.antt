-- ===== src/Lib.antt =====
-- Kuberhealthy runs checker pods on a Kubernetes cluster, takes their reports and shows a summary.
--
-- One replica is the master. Each replica computes who that is (Master, from
-- pkg/masterCalculation/masterCalculation.go `CalculateMaster`, `IAmMaster`) and follows changes of it
-- with a monitor (Master, cmd/kuberhealthy/kuberhealthy.go `masterStatusWatcher`, `masterMonitor`),
-- whose signals the control loop of `Start` handles (Control): it starts and stops the checks and the
-- reapers. The scan of the khchecks that tells the loop to reload, and the khstate reaper, are in
-- Resources (`monitorExternalChecks`, `reapKHStateResources`).
--
-- The master runs each check in rounds (Runner, `runCheck`), and stores the error of a run, or the
-- details of one that finished. A run of a check (pkg/checks/external/main.go) first whitelists a new
-- UUID in the check's khstate (Store.Uuid, `setUUID`); then `RunOnce` (Run, with `cleanup` and the
-- waits) creates a pod (Launch, `configureUserPodSpec`, `createPod`, `addKuberhealthyLabels`). The pod
-- reports to the endpoint /externalCheckStatus (Report, `externalCheckReportHandler`,
-- `validateExternalRequest`), which stores the report in the khstate (Store, `storeCheckState` and
-- cmd/kuberhealthy/crd.go). The status page (Status, cmd/kuberhealthy/reflector.go `CurrentStatus` and
-- `getCurrentStatusForNamespaces`) sums up the khstates in a Health.State (pkg/health/state.go). The
-- reaper (Reaper, cmd/kuberhealthy/reaper.go) deletes the pods and khjobs that have ended.
--
-- The waits of a run over watch events, and its shutdown, are in Watch (`waitForPodStart`,
-- `waitForDeletedEvent`, `evictPod`, `Shutdown`, and pkg/checks/external/util/main.go). Page has the
-- handler of the status page (`healthCheckHandler`, `getCurrentState`), and Metrics the page for
-- Prometheus (pkg/metrics/exporter.go). Loading has `configureChecks`, `configureJob` and the watch
-- that asks for it, whose notifications Limiter smooths (cmd/kuberhealthy/util.go
-- `notifyChanLimiter`). Jobs has the khjobs: their phases, the monitor that triggers them and a run
-- (`setJobPhase`, `monitorKHJobs`, `runJob`).
--
-- The checks are programs of their own. They report with the client (Client,
-- pkg/checks/external/checkclient/main.go `sendReport`), against the handler in Report. Daemonset is
-- cmd/daemonset-check (Daemonset.Input its input.go, Daemonset.Steps its run_check.go,
-- Daemonset.Cleanup its cleanup.go), Deployment is cmd/deployment-check/run_check.go, with its request
-- (Deployment.Requester, service_requester.go), its waits for a deployment and a service
-- (Deployment.Waits and Deployment.Rollout, deployment.go and service.go) and its input
-- (Deployment.Input, input.go). PodRestarts is cmd/pod-restarts-check, Quota is
-- cmd/resource-quota-check, Dns is cmd/dns-resolution-check, PodStatus is cmd/pod-status-check,
-- NamespacePod is cmd/namespace-pod-check, Cronjob is cmd/cronjob-checker and HttpCheck is
-- cmd/http-check.
--
-- Api has the results of Go functions (Api.Results: a value, an error, or a panic; an action changes a
-- world), the resources (Api.Types), and the cluster (Api.Cluster): the API server, the clock and the
-- other writers are a parameter, and each call may change the world. Theorems that need to read back
-- what was written assume the contract of a server that nobody else writes to (`IsQuiet`). Api.Demo is
-- such a cluster, and Examples uses it to try the theorems on samples. Run, Reaper and Resources take
-- their calls as records of their own (`RunApi`, `ReaperApi`, `StatesApi`), and so do Watch, Client
-- and the check programs. Prelude has the shared helpers: Boolean tests, lists, texts and Go maps.
--
-- Conventions. A text is a list of code points. Times are nanoseconds since Go's zero time. A Go map
-- is an association list, and the order in which a range visits one is arbitrary: a theorem holds for
-- every list, or the order is an argument. Goroutines that matter are explicit sequences of events
-- (Control, Master.Monitor, Limiter) or an argument that says what a `select` receives first
-- (Run.Schedule, Daemonset.Steps.Received, Deployment.Receptions). Error messages are shortened where
-- no code reads them. The contract of a quiet server keeps the last run of a khstate to the
-- nanosecond, where its encoding keeps seconds. Go's `int` is an integer in the counts of the reaper's
-- settings, and a natural number elsewhere. Logging is left out.
--
-- Bounds and fuel. `fetchPodBySelectorForDuration` has 62 rounds of fuel for its minute, and any value
-- may stand for its end; `retry` and `verify` count down the tries of the code; the loop of runCheck
-- and the polls of Run, Watch and Daemonset.Steps take the number of rounds as an argument, and their
-- theorems hold for every number. The walk of Cronjob needs at most as many rounds as the year it goes
-- back has nanoseconds, and one.
--
-- Not modelled: the configuration, the HTTP server, the clients of the custom resources, the metric
-- forwarder (I/O and calls of libraries); the manifests of the daemonset, deployment and service that
-- the checks create; the other check programs in cmd.
pub mod Prelude
pub mod Api
pub mod Health
pub mod Status
pub mod Master
pub mod Control
pub mod Store
pub mod Report
pub mod Launch
pub mod Run
pub mod Reaper
pub mod Resources
pub mod Metrics
pub mod Examples
pub mod Client
pub mod Cronjob
pub mod Daemonset
pub mod Deployment
pub mod Dns
pub mod HttpCheck
pub mod Jobs
pub mod Limiter
pub mod Loading
pub mod NamespacePod
pub mod Page
pub mod PodRestarts
pub mod PodStatus
pub mod Quota
pub mod Runner
pub mod Watch
