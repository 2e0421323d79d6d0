-- ===== src/Conditions.antt =====
-- pkg/conditions: the conditions of an object, read and written through an interface.
mod Get
mod Set
pub mod Order
pub mod Reading
pub mod Writing
pub mod Laws
pub mod Marking
pub mod TenantConditions
unfoldable pub use Get.*
unfoldable pub use Set.*
