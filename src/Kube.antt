-- ===== src/Kube.antt =====
-- What the controllers of the repository share: the Kubernetes objects that they read and write, the
-- calls that they make to the API server, and the sequencing of such calls with Go's errors and panics.
pub mod Objects
pub mod Effect
pub mod Client
pub mod Store
pub mod Trace
pub mod Along
pub mod Memory
pub mod DeepCopy
pub mod DeepCopyLaws
pub mod DeepCopyLists
