-- ===== src/Api.antt =====
-- What the program reads and writes through the Kubernetes API: the resources
-- (pkg/apis/khstate/v1/types.go and the parts of a v1.Pod that the code looks at), errors as Go
-- values, and the cluster as a parameter.
pub mod Results
pub mod Types
pub mod Ensures
pub mod Cluster
pub mod Demo
