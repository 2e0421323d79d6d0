-- ===== src/Controllers.antt =====
-- pkg/controllers: the reconciler of tenants.
mod Setup
pub mod Phase
pub mod PhaseLaws
pub mod Secrets
pub mod ApiServer
pub mod ControllerManager
pub mod Normal
pub mod Reconcile
pub mod Ownership
pub mod Footprint
pub mod Run
pub mod Isolation
pub mod Completeness
pub mod Readiness
pub mod Done
pub mod Persistence
pub mod Marks
pub mod Handling
pub mod Lifecycle
pub mod Passing
pub mod Invariant
pub mod Reachable
pub mod Stages
pub mod Ahead
pub mod Refinement
pub mod Outcomes
pub mod Deferred
pub mod Stored
pub mod Workloads
pub mod Liveness
pub mod Settled
pub mod Resting
pub mod Sharing
pub mod Convergence
pub mod Failing
pub mod Waiting
pub mod Material
pub mod Files
pub mod Mounts
pub mod Made
pub mod Deployed
pub mod Fed
pub mod Supplied
pub mod Endpoint
pub use Setup.*
