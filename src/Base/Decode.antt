-- ===== src/Base/Decode.antt =====
-- encoding/json's reading of an object into a struct: a key names a field in whatever letters, the
-- later of two values stands, null leaves a field alone, and a value of another type leaves it too
-- and is the error, if it is the first.
use Prim.Native.Nat.{ℕ, ◌+◌}
use Prim.Native.Char.{code}
use Prim.Native.String.{String}
use mathlib.Core.Bool.{Bool, true, false, ◌&&◌}
use mathlib.Core.Option.{Option, none, some}
use ldndrc.Base.Float.{Float64}
use ldndrc.Base.Int.{ℤ, pos}
use ldndrc.Base.Json.{Json, Fields}
use ldndrc.Base.Outcome.{Result, ok, err}
use ldndrc.Base.Tests.{◌==◌, leb, if◌then◌else◌}

-- What a rune of a key is compared as: beside A to Z, only the Kelvin sign and the long s are the
-- same as a letter of ASCII.
abbrev fold_rune : ℕ → ℕ
fold_rune c =
    if leb b'A' c && leb c b'Z'
    then c + 32
    else if c == 8490
    then b'k'
    else if c == 383
    then b's'
    else c

-- A key of the text and the name of a field
unfoldable pub same_key : String → String → Bool
same_key String.[] String.[] = true
same_key String.[] (String.◌∷◌ d t) = false
same_key (String.◌∷◌ c s) String.[] = false
same_key (String.◌∷◌ c s) (String.◌∷◌ d t) =
    fold_rune (code c) == fold_rune (code d) && same_key s t

-- What the decoder knows of numbers: strconv.ParseInt on the text of a float64 and ParseFloat on
-- that of an int, and the text of its type errors, by the field and the value
pub record Numbers : Type 0 where
  pub is_int : ℤ → Bool
  pub to_int : Float64 → Option ℤ
  pub to_float : ℤ → Float64
  pub mismatch : String → Json → String

-- The struct so far, and the first error
pub record Decoded {ℓ} (A : Type ℓ) : Type ℓ where
  pub value : A
  pub failure : Option String

abbrev or_else : Option String → String → Option String
or_else none e = some e
or_else (some first) e = some first

abbrev finish {ℓ} : {A : Type ℓ} → A → Option String → Result String A
finish a none = ok a
finish a (some e) = err e

module _ {ℓ} {A : Type ℓ} (numbers : Numbers) where
  abbrev mistaken : String → Json → Decoded A → Decoded A
  mistaken name v d = record d { failure = or_else d.failure (numbers.mismatch name v) }

  abbrev set_int : String → (ℤ → A) → ℤ → Json → Decoded A → Decoded A
  set_int name set z v d =
      if numbers.is_int z then record d { value = set z } else mistaken name v d

  abbrev set_whole : String → (ℤ → A) → Option ℤ → Json → Decoded A → Decoded A
  set_whole name set none v d = mistaken name v d
  set_whole name set (some z) v d = set_int name set z v d

  abbrev pub string_field : String → (A → String → A) → Json → Decoded A → Decoded A
  string_field name set Json.null d = d
  string_field name set (Json.string s) d = record d { value = set d.value s }
  string_field name set v d = mistaken name v d

  abbrev pub int_field : String → (A → ℤ → A) → Json → Decoded A → Decoded A
  int_field name set Json.null d = d
  int_field name set (Json.number n) d = set_int name (set d.value) (pos n) (Json.number n) d
  int_field name set (Json.integer z) d = set_int name (set d.value) z (Json.integer z) d
  int_field name set (Json.real x) d =
      set_whole name (set d.value) (numbers.to_int x) (Json.real x) d
  int_field name set v d = mistaken name v d

  abbrev pub float_field : String → (A → Float64 → A) → Json → Decoded A → Decoded A
  float_field name set Json.null d = d
  float_field name set (Json.number n) d = record d {
    value = set d.value (numbers.to_float (pos n));
  }
  float_field name set (Json.integer z) d = record d { value = set d.value (numbers.to_float z) }
  float_field name set (Json.real x) d = record d { value = set d.value x }
  float_field name set v d = mistaken name v d

  unfoldable pub decode_fields :
      (String → Json → Decoded A → Decoded A) → Fields → Decoded A → Decoded A
  decode_fields step Fields.end d = d
  decode_fields step (Fields.field k v fs) d = decode_fields step fs (step k v d)

  -- Decode into a struct whose fields are still zero
  unfoldable pub decode_struct :
      (String → Json → Decoded A → Decoded A) → A → Json → Result String A
  decode_struct step zero Json.null = ok zero
  decode_struct step zero (Json.object fs) =
      let d = decode_fields step fs (record { value = zero; failure = none }) in
      finish d.value d.failure
  decode_struct step zero v = err (numbers.mismatch "" v)
