-- ===== src/Secret.antt =====
-- pkg/secret: keys and certificates, made, encoded and decoded.
mod Primitives
pub mod Certs
pub mod Certificates
pub mod Coding
pub mod Issuing
pub mod Keeping
pub use Primitives.*
