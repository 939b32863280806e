-- ===== src/Sessions/Domain.antt =====
-- The allocation of ROS domain IDs: nextDomainIDLocked.
use ldndrc.Base.{
  ℕ, zero, suc, ◌+◌, ◌-◌, ◌≤◌, ◌<◌, ◌≡◌, refl, subst, inl, inr, Bool, true, false, ◌&&◌, Option,
  none, some, String, Result, ok, err, arith, ◌==◌, if◌then◌else◌, Bool-cases,
}
use native.Mathlib.Decide.{dec_lt}
use ldndrc.Base.Map.{Map, lookup, any_value, IsUnique, any_value_of_lookup, lookup_of_any_value}
use ldndrc.Sessions.Types.{Status, stopped, error, Session, Error, no_domain_ids}

-- status != StatusStopped && status != StatusError
abbrev pub is_active : Status → Bool
is_active stopped = false
is_active error = false
is_active _ = true

-- used[d], for the set that the first loop collects
pub used : Map Session → ℕ → Bool
used m d = any_value (λ s. is_active s.status && s.ros_domain_id == d) m

-- for ; rounds > 0; id++ { if !used[id] { return id } }
free_from : (ℕ → Bool) → ℕ → ℕ → Option ℕ
free_from taken zero d = none
free_from taken (suc rounds) d =
    let rest = free_from taken rounds (d + 1) in if taken d then rest else some d

abbrev pub min_domain : ℕ
min_domain = 100

abbrev pub max_domain : ℕ
max_domain = 232

domain_or_error : Option ℕ → Result Error ℕ
domain_or_error none = err no_domain_ids
domain_or_error (some d) = ok d

unfoldable pub next_domain_id : Map Session → Result Error ℕ
unfolding free_from domain_or_error used
next_domain_id m = domain_or_error (free_from (used m) (max_domain + 1 - min_domain) min_domain)

-- The loop finds the least free number of its range, and none exactly if all are taken.
abbrev Scan : (ℕ → Bool) → ℕ → ℕ → Option ℕ → Type 0
Scan taken rounds d none = (e : ℕ) → d ≤ e → e < d + rounds → taken e ≡ true
Scan taken rounds d (some r) =
    (d ≤ r) × (r < d + rounds) × (taken r ≡ false) × ((e : ℕ) → d ≤ e → e < r → taken e ≡ true)

-- A test that holds at `d` and above it holds from `d` on.
from_d :
    (taken : ℕ → Bool) (d e : ℕ)
    → taken d ≡ true
    → (d + 1 ≤ e → taken e ≡ true)
    → d ≤ e
    → taken e ≡ true
from_d taken d e t above le = elim (dec_lt d e) [
  | yes lt ↦ above (omega arith)
  | no ge ↦ subst (λ k. taken k ≡ true) (omega arith) t
]

-- The number before the range is taken, so the range may begin one earlier.
Scan-extend :
    (taken : ℕ → Bool) (rounds d : ℕ) (r : Option ℕ)
    → taken d ≡ true
    → Scan taken rounds (d + 1) r
    → Scan taken (suc rounds) d r
Scan-extend taken rounds d none t h =
    λ e lo hi. from_d taken d e t (λ above. h e above (omega arith)) lo
Scan-extend taken rounds d (some r) t h =
    (omega arith, omega arith, h.2, λ e lo hi. from_d taken d e t (λ above. h.3 e above hi) lo)

free_from-Scan : (taken : ℕ → Bool) (rounds d : ℕ) → Scan taken rounds d (free_from taken rounds d)
unfolding free_from
free_from-Scan taken zero d = λ e lo hi. absurd (omega arith)
free_from-Scan taken (suc rounds) d = elim (Bool-cases (taken d)) [
  | inl t ↦ rw t (Scan-extend taken rounds d _ t (free_from-Scan taken rounds (d + 1)))
  | inr f ↦ rw f (omega arith, omega arith, f, λ e lo hi. absurd (omega arith))
]

-- An active session of the map has the domain ID `d`.
abbrev pub Holds : Map Session → ℕ → Type 0
Holds m d =
    (k : String) × (s : Session) × (lookup k m ≡ some s)
    × (is_active s.status ≡ true)
    × (s.ros_domain_id ≡ d)

pub used-Holds : (m : Map Session) (d : ℕ) → IsUnique m → used m d ≡ true → Holds m d
unfolding used
used-Holds m d u h =
    let (k, s, found, t) = lookup_of_any_value _ m u h in (k, s, found, ground arith, ground arith)

pub Holds-used : (m : Map Session) (d : ℕ) → Holds m d → used m d ≡ true
unfolding used
Holds-used m d (k, s, found, a, e) = any_value_of_lookup _ k s m found (ground arith)

-- What nextDomainIDLocked promises: the least ID of 100 .. 232 that no active session has, or the
-- error when each of them is held.
abbrev pub Allocates : Map Session → Result Error ℕ → Type 0
Allocates m (ok d) =
    (min_domain ≤ d)
    × (d ≤ max_domain)
    × ¬ Holds m d
    × ((e : ℕ) → min_domain ≤ e → e < d → Holds m e)
Allocates m (err e) = (e ≡ no_domain_ids) × ((d : ℕ) → min_domain ≤ d → d ≤ max_domain → Holds m d)

Scan-Allocates :
    (m : Map Session) (r : Option ℕ)
    → IsUnique m
    → Scan (used m) 133 100 r
    → Allocates m (domain_or_error r)
unfolding domain_or_error
Scan-Allocates m none u h = (refl, λ d lo hi. used-Holds m d u (h d lo (omega arith)))
Scan-Allocates m (some d) u h = (
  h.0,
  omega arith,
  λ held. cc (h.2, Holds-used m d held),
  λ e lo hi. used-Holds m e u (h.3 e lo hi),
)

-- The allocator returns the least domain ID of 100 .. 232 that no active session of the map holds,
-- and it fails exactly when active sessions hold them all.
pub next_domain_id-Allocates : (m : Map Session) → IsUnique m → Allocates m (next_domain_id m)
unfolding next_domain_id
next_domain_id-Allocates m u = Scan-Allocates m _ u (free_from-Scan (used m) 133 100)
