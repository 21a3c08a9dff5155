-- ===== src/Exocom/Samples.antt =====
-- A runtime and identities that the tests of the exocom modules share.
use pi_persona.Base.{false, none, some, List, Text, codes, starts_with}
use pi_persona.Core.Ownership.{PathModule}
use pi_persona.Exocom.Frames.{Head, Value}
use pi_persona.Exocom.Collaboration.{Runtime}

abbrev pub sample_paths : PathModule
sample_paths = record {
  posix_normalize = λ s. s;
  win32_normalize = λ s. s;
  posix_is_absolute = λ s. starts_with (codes "/") s;
  win32_is_absolute = λ s. false;
  to_lower = λ s. s;
}

-- Every time is the same, and every state is small.
abbrev pub sample_runtime : Runtime
sample_runtime = record { parse_time = λ s. some 7; json_bytes = λ s. 100; paths = sample_paths }

abbrev pub sample_stringify : List Value → Text
sample_stringify vs = codes "[]"

abbrev pub sample_head : Text → Text → Head
sample_head session id = record {
  work_key = codes "k";
  from_session = session;
  from_name = codes "n";
  msg_id = id;
  ts = codes "2026-01-01T00:00:00Z";
  signature = none;
}
