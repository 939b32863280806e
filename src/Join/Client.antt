-- ===== src/Join/Client.antt =====
-- The calls of control-panel/internal/join/register.go on the wire: the requests of Register, Poll
-- and UploadDiagnostics and how their answers are read, over an http.Client. A text of JSON stands
-- as the value that it encodes.
use ldndrc.Base.{
  ℕ, ◌≡◌, arith, String, Bool, true, false, Option, none, some, [], ◌∷◌, Result, ok, err, concat,
  if◌then◌else◌,
}
use ldndrc.Base.Json.{Json, string, integer, real, obj}
use ldndrc.Base.Decode.{Numbers, Decoded, same_key, string_field, decode_struct}
use ldndrc.Base.Float.{Float64, nan, neg_inf, pos_inf}
use ldndrc.Join.Engine.{Fingerprint, PollResult, Exchange}

-- A body: none or an empty one, a text of JSON, and any other text
pub data Payload : Type 0 where
  empty : Payload
  json : Json → Payload
  text : String → Payload

pub record Request : Type 0 where
  pub method : String
  pub url : String
  pub payload : Payload

-- What c.HTTP.Do answers: an error, or the status code and the body, as json.Decoder reads it
abbrev pub Answer : Type 0
Answer = Result String (ℕ × Result String Json)

-- json.Marshal refuses a float64 that is not finite.
abbrev pub is_finite : Float64 → Bool
is_finite nan = false
is_finite neg_inf = false
is_finite pos_inf = false
is_finite _ = true

unfoldable pub fingerprint_json : Fingerprint → Json
fingerprint_json fp = obj (
    ("arch", string fp.arch)
    ∷ ("cpu", integer fp.cpu)
    ∷ ("gpu", string fp.gpu)
    ∷ ("hostname", string fp.hostname)
    ∷ ("join_key", string fp.join_key)
    ∷ ("os", string fp.os)
    ∷ ("ram_gb", real fp.ram_gb)
    ∷ [])

-- The body of Register. The error of json.Marshal is dropped, and with it the body.
unfoldable pub fingerprint_payload : Fingerprint → Payload
fingerprint_payload fp = if is_finite fp.ram_gb then json (fingerprint_json fp) else empty

unfoldable pub register_request : String → Fingerprint → Request
register_request base fp = record {
  method = "POST";
  url = concat (base ∷ "/api/nodes/register" ∷ []);
  payload = fingerprint_payload fp;
}

unfoldable pub poll_request : String → String → Request
poll_request base id = record {
  method = "GET";
  url = concat (base ∷ "/api/nodes/" ∷ id ∷ []);
  payload = empty;
}

unfoldable pub upload_request : String → String → String → Request
upload_request base id bundle = record {
  method = "POST";
  url = concat (base ∷ "/api/nodes/" ∷ id ∷ "/diagnostics" ∷ []);
  payload = text bundle;
}

-- The struct that Register reads, which has the ID only
unfoldable pub read_id : Numbers → Json → Result String String
read_id numbers v =
    decode_struct numbers
      (λ k v d. if same_key k "id" then string_field numbers "id" (λ old s. s) v d else d) "" v

unfoldable pub no_result : PollResult
no_result = record { status = ""; reason = ""; k3s_url = ""; k3s_token = ""; node_name = "" }

-- The fields of PollResult, two of them with no tag
unfoldable pub poll_field : Numbers → String → Json → Decoded PollResult → Decoded PollResult
poll_field numbers k v d =
    if same_key k "Status"
    then string_field numbers "Status" (λ r s. record r { status = s }) v d
    else if same_key k "Reason"
    then string_field numbers "Reason" (λ r s. record r { reason = s }) v d
    else if same_key k "k3s_url"
    then string_field numbers "k3s_url" (λ r s. record r { k3s_url = s }) v d
    else if same_key k "k3s_token"
    then string_field numbers "k3s_token" (λ r s. record r { k3s_token = s }) v d
    else if same_key k "node_name"
    then string_field numbers "node_name" (λ r s. record r { node_name = s }) v d
    else d

unfoldable pub read_poll : Numbers → Json → Result String PollResult
read_poll numbers v = decode_struct numbers (poll_field numbers) no_result v

abbrev read_body : {A : Type 0} → (Json → Result String A) → Result String Json → Result String A
read_body read (ok v) = read v
read_body read (err e) = err e

-- An answer whose body is read; Register and Poll look at the status code first.
unfoldable pub decoded : {A : Type 0} → (Json → Result String A) → Answer → Exchange A
decoded read (err e) = err e
decoded read (ok (code, body)) = ok (code, read_body read body)

abbrev pub code_of : Answer → Result String ℕ
code_of (err e) = err e
code_of (ok (code, body)) = ok code

module _ {W : Type 0} (numbers : Numbers) (base : String) (url_error : String → Option String)
    (http_do : Request → W → Answer × W) where
  -- http.NewRequestWithContext, which may refuse the URL, and c.HTTP.Do
  unfoldable pub send : Request → W → Answer × W
  send req w = elim (url_error req.url) [ some e ↦ (err e, w) | none ↦ http_do req w ]

  -- What holds of a refused URL and of what the client answers, holds of a call.
  pub send-rule {ℓ} :
      (P : Answer × W → Type ℓ) (req : Request) (w : W)
      → ((e : String) → P (err e, w))
      → P (http_do req w)
      → P (send req w)
  unfolding send
  send-rule P req w refused made =
      elim (url_error req.url) as (λ o. P (elim o [ some e ↦ (err e, w) | none ↦ http_do req w ])) [
        | some e ↦ refused e
        | none ↦ made
      ]

  pub send-made : (req : Request) (w : W) → url_error req.url ≡ none → send req w ≡ http_do req w
  unfolding send
  send-made req w good = ground (arith, good)

  unfoldable pub register : Fingerprint → W → Exchange String × W
  register fp w =
      let (reply, w') = send (register_request base fp) w in (decoded (read_id numbers) reply, w')

  unfoldable pub poll : String → W → Exchange PollResult × W
  poll id w =
      let (reply, w') = send (poll_request base id) w in (decoded (read_poll numbers) reply, w')

  unfoldable pub upload_diagnostics : String → String → W → Result String ℕ × W
  upload_diagnostics id bundle w =
      let (reply, w') = send (upload_request base id bundle) w in (code_of reply, w')
