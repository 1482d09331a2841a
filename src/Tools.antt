-- ===== src/Tools.antt =====
-- gateway/tools: the two tools of the registry.
pub mod DbQuery
pub mod ShellExec
pub mod Values
pub mod Rows
pub mod Contained
