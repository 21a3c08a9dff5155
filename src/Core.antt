-- ===== src/Core.antt =====
-- src/core: the pure modules that every other part calls.
pub mod Fence
pub mod Permissions
pub mod Capabilities
pub mod Ownership
pub mod Monitor
pub mod MonitorOutput
