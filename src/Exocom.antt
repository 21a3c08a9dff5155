-- ===== src/Exocom.antt =====
-- src/exocom: the plane on which the sessions of one workspace work as peers.
pub mod Guards
pub mod Frames
pub mod Samples
pub mod Collaboration
pub mod Ledger
