-- ===== src/Persona.antt =====
-- src/persona: the personas, and what they may do.
pub mod Gating
