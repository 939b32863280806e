-- ===== src/Base/Json.antt =====
-- JSON values, as Go builds them from maps and slices. The order of an object's fields is that in
-- which the source writes them.
use Prim.Native.Nat.{ℕ}
use Prim.Native.String.{String}
use mathlib.Core.Bool.{Bool}
use mathlib.Core.Option.{Option, none, some}
use mathlib.Core.List.{List, [], ◌∷◌}
use text.Mathlib.Text.{◌==◌ as str_eq}
use ldndrc.Base.Float.{Float64}
use ldndrc.Base.Int.{ℤ}
use ldndrc.Base.Tests.{if◌then◌else◌}

mutual
  pub data Json : Type 0 where
    null : Json
    string : String → Json
    number : ℕ → Json
    integer : ℤ → Json
    real : Float64 → Json
    boolean : Bool → Json
    array : Items → Json
    object : Fields → Json

  pub data Items : Type 0 where
    nil : Items
    item : Json → Items → Items

  pub data Fields : Type 0 where
    end : Fields
    field : String → Json → Fields → Fields

-- map[string]interface{}{…} and []interface{}{…}
abbrev pub fields_of : List (String × Json) → Fields
fields_of [] = end
fields_of ((k, v) ∷ fs) = field k v (fields_of fs)

abbrev pub obj : List (String × Json) → Json
obj fs = object (fields_of fs)

abbrev pub items_of : List Json → Items
items_of [] = nil
items_of (v ∷ vs) = item v (items_of vs)

abbrev pub arr : List Json → Json
arr vs = array (items_of vs)

abbrev pub find_field : String → Fields → Option Json
find_field k end = none
find_field k (field j v fs) = if str_eq j k then some v else find_field k fs

-- The member of an object, or `none`
abbrev pub member : String → Option Json → Option Json
member k (some (object fs)) = find_field k fs
member k _ = none

abbrev pub first : Option Json → Option Json
first (some (array (item v vs))) = some v
first _ = none
