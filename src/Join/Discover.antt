-- ===== src/Join/Discover.antt =====
-- control-panel/internal/join/discover.go: how the join program finds the control panel. The mDNS
-- query is a parameter.
use ldndrc.Base.{
  ◌≡◌, inl, inr, ℤ, pos, ◌||◌, String, Bool, true, not, Option, none, some, List, [], ◌∷◌, concat,
  itoa, str_eq, arith, Bool-cases, if◌then◌else◌,
}
use ldndrc.Base.Int.{eq_int}

-- Master
pub record Master : Type 0 where
  pub host : String
  pub port : ℤ

-- An entry of the answer, by its Host and Port
pub record Entry : Type 0 where
  pub host : String
  pub port : ℤ

-- Addr
unfoldable pub addr : Master → String
addr m = concat (m.host ∷ ":" ∷ itoa m.port ∷ [])

-- The loop over the entries
unfoldable pub first_match : ℤ → List Entry → Option String
first_match port [] = none
first_match port (e ∷ es) =
    let rest = first_match port es in
    if eq_int e.port port || eq_int port (pos 0) then some e.host else rest

-- browseMDNS: the entries that mdns.Query delivers, or none if it fails, and whether the loop over
-- them is done when the channel is read, which nothing waits for
unfoldable pub browse_mdns : ℤ → Option (List Entry) → Bool → Option String
browse_mdns port none is_done = none
browse_mdns port (some es) is_done = if is_done then first_match port es else none

abbrev host_or_empty : Option String → String
host_or_empty none = ""
host_or_empty (some host) = host

-- DiscoverMaster, on the flag, MASTER_IP and what browseMDNS finds
unfoldable pub discover_master : String → String → ℤ → Option String → Master
discover_master flag env port found =
    if not (str_eq flag "")
    then record { host = flag; port = port }
    else if not (str_eq env "")
    then record { host = env; port = port }
    else record { host = host_or_empty found; port = port }

first_match-some :
    (port : ℤ) (es : List Entry) (host : String)
    → first_match port es ≡ some host
    → (e : Entry) × (e.host ≡ host) × ((eq_int e.port port || eq_int port (pos 0)) ≡ true)
unfolding first_match
first_match-some port [] host h = absurd (ground arith)
first_match-some port (e ∷ es) host h =
    elim (Bool-cases (eq_int e.port port || eq_int port (pos 0))) [
      | inl good ↦ (e, ground (arith, good), good)
      | inr bad ↦ first_match-some port es host (ground (arith, bad))
    ]
