-- ===== src/Http/Bounds.antt =====
-- The memory that the rate limiter takes for an address is bounded.
use ldndrc.Base.{
  ℕ, ◌≤◌, ◌≡◌, sym, subst, inl, inr, String, List, [], ◌∷◌, length, length-append, arith, str_eq,
  eq_iff, Bool-cases,
}
use ldndrc.Http.Limiter.{Limiter, new_limiter, allow, kept}
use ldndrc.Http.SlidingWindow.{
  hits_of, allow-other, allow-refused, allow-granted, allow-settings, length-kept-le,
}
use ldndrc.Base.Map.{lookup}

-- The limiter after some calls, each at a time and from an address
abbrev pub after : List (ℕ × String) → Limiter → Limiter
after [] l = l
after ((now, ip) ∷ cs) l = after cs (allow now ip l).1

allow-bounded :
    (now : ℕ) (j ip : String) (l : Limiter)
    → length (hits_of ip l) ≤ l.limit
    → length (hits_of ip (allow now j l).1) ≤ (allow now j l).1.limit
allow-bounded now j ip l h = elim (Bool-cases (str_eq j ip)) [
  | inr other ↦ rw (allow-other now j ip l other, (allow-settings now j l).0) h
  | inl hit ↦
      let same : j ≡ ip = (eq_iff j ip).0 hit in
      subst (λ k. length (hits_of ip (allow now k l).1) ≤ (allow now k l).1.limit) (sym same)
        (elim (Bool-cases (allow now ip l).0) [
          | inl granted ↦
              let (now_held, few) = allow-granted now ip l granted in
              rw
                (
                  now_held,
                  (allow-settings now ip l).0,
                  length-append (kept l.window now (hits_of ip l)) (now ∷ []),
                )
                (omega arith)
          | inr refused ↦
              let (now_held, many) = allow-refused now ip l refused in
              let shorter = length-kept-le l.window now (hits_of ip l) in
              rw (now_held, (allow-settings now ip l).0) (omega arith)
        ])
]

after-bounded :
    (ip : String) (cs : List (ℕ × String)) (l : Limiter)
    → length (hits_of ip l) ≤ l.limit
    → (length (hits_of ip (after cs l)) ≤ (after cs l).limit) × ((after cs l).limit ≡ l.limit)
after-bounded ip [] l h = (h, λ i. l.limit)
after-bounded ip ((now, j) ∷ cs) l h =
    let (less, same) = after-bounded ip cs (allow now j l).1 (allow-bounded now j ip l h) in
    (less, ground (arith, same, (allow-settings now j l).0))

-- After any calls, at any times and from any addresses, even with a clock that goes back, the
-- limiter holds at most `limit` hits of an address.
pub hits_bounded :
    (limit window : ℕ) (cs : List (ℕ × String)) (ip : String)
    → length (hits_of ip (after cs (new_limiter limit window))) ≤ limit
unfolding new_limiter lookup
hits_bounded limit window cs ip =
    let (less, same) = after-bounded ip cs (new_limiter limit window) (omega arith) in
    omega (arith, less, same)
