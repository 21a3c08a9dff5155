-- ===== src/Exocom/Frames.antt =====
-- exocom/envelope.ts: the semantic frames, their validation, and what their signatures cover.
-- `Date.parse` is a parameter: the milliseconds of a text since the start of year 0, or none for NaN.
mod Types
mod Validation
pub mod Payload
pub use Types.*
unfoldable pub use Validation.*
unfoldable pub use Payload.*
