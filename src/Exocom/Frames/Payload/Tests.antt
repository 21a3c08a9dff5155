-- ===== src/Exocom/Frames/Payload/Tests.antt =====
-- Two frames that differ in their signatures.
use pi_persona.Base.{◌≡◌, refl, some, codes}
use pi_persona.Exocom.Frames.Types.{Head, SemanticFrame, release}
use pi_persona.Exocom.Frames.Payload.{payload_values}
use pi_persona.Exocom.Frames.Payload.Coverage.{unsigned, payload_values-injective}

abbrev head : Head
head = record {
  work_key = codes "k";
  from_session = codes "a";
  from_name = codes "n";
  msg_id = codes "m";
  ts = codes "t";
  signature = some (codes "s1");
}

abbrev signed_first : SemanticFrame
signed_first = release head

abbrev signed_second : SemanticFrame
signed_second = release (record head { signature = some (codes "s2") })

payloads_agree : payload_values signed_first ≡ payload_values signed_second
unfolding payload_values
payloads_agree = refl

payload_values-injective_example : unsigned signed_first ≡ unsigned signed_second
payload_values-injective_example =
    payload_values-injective signed_first signed_second payloads_agree
