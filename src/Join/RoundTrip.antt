-- ===== src/Join/RoundTrip.antt =====
-- What the laptop and the control panel send each other is read as it was meant.
use ldndrc.Base.{
  ◌≡◌, refl, String, true, Option, none, some, ok, err, arith, Bool-cases, inl, inr, if◌then◌else◌,
}
use ldndrc.Base.Decode.{Numbers, same_key, decode_fields, decode_struct}
use ldndrc.Http.Nodes.{Registration, status_text}
use ldndrc.Http.Types.{poll_token}
use ldndrc.Http.Wire.{Clock, encode, registration_field, read_registration, zero_registration}
use ldndrc.Nodes.Types.{Status}
use ldndrc.Join.Client.{
  Payload, json, empty, text, is_finite, fingerprint_json, fingerprint_payload, poll_field,
  read_poll, no_result,
}
use ldndrc.Join.Engine.{Fingerprint}

-- The body of a registration as the handler decodes it
unfoldable pub registration_of : Numbers → Payload → Option Registration
registration_of numbers (json v) = elim (read_registration numbers v) [
  | ok r ↦ some r
  | err e ↦ none
]
registration_of numbers empty = none
registration_of numbers (text s) = none

abbrev pub as_registration : Fingerprint → Registration
as_registration fp = record {
  profile = record {
    hostname = fp.hostname;
    os = fp.os;
    arch = fp.arch;
    cpu = fp.cpu;
    ram_gb = fp.ram_gb;
    gpu = fp.gpu;
  };
  join_key = fp.join_key;
}

read_registration-json :
    (numbers : Numbers) (fp : Fingerprint)
    → numbers.is_int fp.cpu ≡ true
    → read_registration numbers (fingerprint_json fp) ≡ ok (as_registration fp)
unfolding fingerprint_json read_registration decode_struct decode_fields registration_field same_key
    zero_registration
read_registration-json numbers fp fits = ground (arith, fits)

pub registration_arrives :
    (numbers : Numbers) (fp : Fingerprint)
    → numbers.is_int fp.cpu ≡ true
    → registration_of numbers (fingerprint_payload fp)
      ≡ (if is_finite fp.ram_gb then some (as_registration fp) else none)
unfolding registration_of fingerprint_payload
registration_arrives numbers fp fits = elim (Bool-cases (is_finite fp.ram_gb)) [
  | inl fine ↦ ground (arith, fine, read_registration-json numbers fp fits)
  | inr bad ↦ ground (arith, bad)
]

pub poll_token-read :
    (numbers : Numbers) (clock : Clock) (s : Status) (url token name : String)
    → read_poll numbers (encode clock (poll_token s url token name))
      ≡ ok (record {
        status = status_text s;
        reason = "";
        k3s_url = url;
        k3s_token = token;
        node_name = name;
      })
unfolding encode read_poll poll_field decode_struct decode_fields same_key no_result
poll_token-read numbers clock s url token name = refl
