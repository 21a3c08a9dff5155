-- ===== src/Bus.antt =====
-- src/bus: messages between the agents of one session.
pub mod Framing
pub mod Inproc
