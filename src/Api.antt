-- ===== src/Api.antt =====
-- The API types that the manager reads and writes, and the library calls on them.
mod Meta
mod Tenants
mod Workload
mod Objects
mod Calls
pub mod Register
unfoldable pub use Meta.*
unfoldable pub use Tenants.*
unfoldable pub use Workload.*
unfoldable pub use Objects.*
unfoldable pub use Calls.*
