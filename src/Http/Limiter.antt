-- ===== src/Http/Limiter.antt =====
-- The rate limiter of control-panel/internal/httpapi/router.go.
use ldndrc.Base.{
  ℕ, ◌+◌, ltb, leb, String, Bool, true, false, Option, none, some, List, [], ◌∷◌, ◌++◌, length,
  if◌then◌else◌,
}
use ldndrc.Base.Map.{Map, lookup, put}

-- Times in nanoseconds
pub record Limiter : Type 0 where
  pub hits : Map (List ℕ)
  pub limit : ℕ
  pub window : ℕ

-- newRateLimiter
unfoldable pub new_limiter : ℕ → ℕ → Limiter
new_limiter limit window = record { hits = []; limit = limit; window = window }

-- The loop that keeps the hits after now - window
unfoldable pub kept : ℕ → ℕ → List ℕ → List ℕ
kept window now [] = []
kept window now (t ∷ ts) =
    let rest = kept window now ts in if ltb now (t + window) then t ∷ rest else rest

-- l.hits[ip], which is nil at a missing key
abbrev pub hits_or_nil : Option (List ℕ) → List ℕ
hits_or_nil none = []
hits_or_nil (some ts) = ts

-- allow
unfoldable pub allow : ℕ → String → Limiter → Bool × Limiter
allow now ip l =
    let recent = kept l.window now (hits_or_nil (lookup ip l.hits)) in
    if leb l.limit (length recent)
    then (false, record l { hits = put ip recent l.hits })
    else (true, record l { hits = put ip (recent ++ now ∷ []) l.hits })
