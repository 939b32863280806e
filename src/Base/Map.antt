-- ===== src/Base/Map.antt =====
-- Go's `map[string]V` as an association list. A write to a key that is there keeps its place, a
-- new key goes to the end. The order of a `range` loop is unspecified in Go: a definition that
-- loops over a map takes the entries in the order in which they are visited.
use Prim.Native.String.{String}
use mathlib.Core.Path.{◌≡◌, refl}
use mathlib.Core.Bool.{Bool, true, false, ◌||◌}
use mathlib.Core.Option.{Option, none, some}
use mathlib.Core.List.{List, [], ◌∷◌}
use native.Mathlib.Omega.{arith}
use text.Mathlib.Text.{◌==◌ as str_eq}
use text.Mathlib.TextEquality.{eq_iff}
use text.Mathlib.TextPositions.{eq_refl}
use mathlib.Core.Logic.{◌⊎◌, inl, inr}
use ldndrc.Base.Tests.{if◌then◌else◌, Bool-cases}

abbrev pub Map {ℓ} : Type ℓ → Type ℓ
Map V = List (String × V)

module _ {ℓ} {V : Type ℓ} where
  -- m[k]
  unfoldable pub lookup : String → Map V → Option V
  lookup k [] = none
  lookup k ((j, v) ∷ m) = if str_eq j k then some v else lookup k m

  -- m[k] = v
  unfoldable pub put : String → V → Map V → Map V
  put k v [] = (k, v) ∷ []
  put k v ((j, w) ∷ m) = if str_eq j k then (j, v) ∷ m else (j, w) ∷ put k v m

  -- delete(m, k)
  unfoldable pub remove : String → Map V → Map V
  remove k [] = []
  remove k ((j, v) ∷ m) = let rest = remove k m in if str_eq j k then rest else (j, v) ∷ rest

  pub lookup-put :
      (k j : String) (v : V) (m : Map V)
      → lookup j (put k v m) ≡ (if str_eq k j then some v else lookup j m)
  unfolding lookup put
  lookup-put k j v [] = refl
  lookup-put k j v ((i, w) ∷ m) =
      ground (arith, eq_iff k j, eq_iff i k, eq_iff i j, lookup-put k j v m)

  pub lookup-remove :
      (k j : String) (m : Map V) → lookup j (remove k m) ≡ (if str_eq k j then none else lookup j m)
  unfolding lookup remove
  lookup-remove k j [] = ground arith
  lookup-remove k j ((i, v) ∷ m) =
      ground (arith, lookup-remove k j m, eq_iff i k, eq_iff i j, eq_iff k j)

  pub lookup-put_self : (k : String) (v : V) (m : Map V) → lookup k (put k v m) ≡ some v
  lookup-put_self k v m = rw (lookup-put, eq_refl k)

  -- What is found after a write was written or was there before.
  pub lookup-put_cases :
      (k j : String) (v w : V) (m : Map V)
      → lookup j (put k v m) ≡ some w
      → ((k ≡ j) × (v ≡ w)) ⊎ ((str_eq k j ≡ false) × (lookup j m ≡ some w))
  lookup-put_cases k j v w m h = elim (Bool-cases (str_eq k j)) [
    | inl hit ↦ inl ((eq_iff k j).0 hit, ground (arith, lookup-put k j v m))
    | inr miss ↦ inr (miss, ground (arith, lookup-put k j v m))
  ]

  pub lookup-remove_cases :
      (k j : String) (w : V) (m : Map V)
      → lookup j (remove k m) ≡ some w
      → (str_eq k j ≡ false) × (lookup j m ≡ some w)
  lookup-remove_cases k j w m h = ground (arith, lookup-remove k j m)

  -- A write that is taken back leaves the map as it was.
  pub remove-put : (k : String) (v : V) (m : Map V) → lookup k m ≡ none → remove k (put k v m) ≡ m
  unfolding lookup put remove
  remove-put k v [] h = ground (arith, eq_refl k)
  remove-put k v ((j, w) ∷ m) h = ground (arith, remove-put k v m)

  pub put-put : (k : String) (v w : V) (m : Map V) → lookup k m ≡ some w → put k w (put k v m) ≡ m
  unfolding lookup put
  put-put k v w [] h = ground arith
  put-put k v w ((j, x) ∷ m) h = ground (arith, put-put k v w m)

  -- Some value of the map passes the test.
  unfoldable pub any_value : (V → Bool) → Map V → Bool
  any_value p [] = false
  any_value p ((k, v) ∷ m) = p v || any_value p m

  -- No key stands twice, as in every Go map.
  abbrev pub IsUnique : Map V → Type ℓ
  IsUnique [] = Unit
  IsUnique ((k, v) ∷ m) = (lookup k m ≡ none) × IsUnique m

  pub put-IsUnique : (k : String) (v : V) (m : Map V) → IsUnique m → IsUnique (put k v m)
  unfolding put lookup
  put-IsUnique k v [] u = (refl, tt)
  put-IsUnique k v ((j, w) ∷ m) u =
      ground (arith, put-IsUnique k v m u.1, lookup-put k j v m, eq_iff j k, eq_iff k j)

  pub remove-IsUnique : (k : String) (m : Map V) → IsUnique m → IsUnique (remove k m)
  unfolding remove
  remove-IsUnique k [] u = tt
  remove-IsUnique k ((j, w) ∷ m) u =
      ground (arith, remove-IsUnique k m u.1, lookup-remove k j m, eq_iff j k, eq_iff k j)

  -- A value that can be looked up is met by a loop over the map, and the other way round.
  pub any_value_of_lookup :
      (p : V → Bool) (k : String) (v : V) (m : Map V)
      → lookup k m ≡ some v
      → p v ≡ true
      → any_value p m ≡ true
  unfolding lookup any_value
  any_value_of_lookup p k v [] h t = ground arith
  any_value_of_lookup p k v ((j, w) ∷ m) h t = ground (arith, any_value_of_lookup p k v m)

  pub lookup_of_any_value :
      (p : V → Bool) (m : Map V)
      → IsUnique m
      → any_value p m ≡ true
      → (k : String) × (v : V) × (lookup k m ≡ some v) × (p v ≡ true)
  unfolding lookup any_value
  lookup_of_any_value p [] u h = absurd (ground arith)
  lookup_of_any_value p ((j, w) ∷ m) u h = elim (Bool-cases (p w)) [
    | inl here ↦ (j, w, ground (arith, eq_refl j), here)
    | inr there ↦
        let (k, v, found, t) = lookup_of_any_value p m u.1 (ground arith) in
        (k, v, ground (arith, eq_iff j k), t)
  ]

-- `visited` lists the entries of the map `m`, each once, in some order.
pub record Visits {ℓ} {V : Type ℓ} (visited m : Map V) : Type ℓ where
  pub once : IsUnique visited
  pub same : (k : String) → lookup k visited ≡ lookup k m
