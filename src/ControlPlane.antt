-- ===== src/ControlPlane.antt =====
-- gateway/control_plane: durable rows, and the repository over them.
pub mod Rows
pub mod Repository
pub mod Attempts
pub mod Resolved
