-- ===== src/Http/SlidingWindow.antt =====
-- The rate limiter against its specification: a sliding window over the requests that it granted.
use ldndrc.Base.{
  ℕ, ◌+◌, ◌≤◌, ◌<◌, ◌≡◌, refl, subst, sym, ap, ◌∙◌, inl, inr, ltb, String, true, false, ◌&&◌, List,
  [], ◌∷◌, ◌++◌, length, length-append, arith, str_eq, eq_iff, eq_refl, Bool-cases, if◌then◌else◌,
}
use ldndrc.Base.Map.{lookup, lookup-put, lookup-put_self}
use ldndrc.Http.Limiter.{Limiter, new_limiter, kept, hits_or_nil, allow}

-- The times of the calls that an address was granted, in order, when the calls `cs` run on `l`.
pub replay : String → List (ℕ × String) → Limiter → List ℕ → Limiter × List ℕ
replay ip [] l granted = (l, granted)
replay ip ((now, j) ∷ cs) l granted =
    let (fine, l') = allow now j l in
    replay ip cs l' (if fine && str_eq j ip then granted ++ now ∷ [] else granted)

-- The clock does not go back.
abbrev pub Ordered : ℕ → List (ℕ × String) → Type 0
Ordered last [] = Unit
Ordered last ((now, j) ∷ cs) = (last ≤ now) × Ordered now cs

-- The time of the last call
abbrev pub last_time : ℕ → List (ℕ × String) → ℕ
last_time last [] = last
last_time last ((now, j) ∷ cs) = last_time now cs

kept-append : (w now : ℕ) (xs ys : List ℕ) → kept w now (xs ++ ys) ≡ kept w now xs ++ kept w now ys
unfolding kept
kept-append w now [] ys = refl
kept-append w now (x ∷ xs) ys = ground (arith, kept-append w now xs ys)

-- What has left the window stays outside.
kept-kept : (w a b : ℕ) (xs : List ℕ) → a ≤ b → kept w b (kept w a xs) ≡ kept w b xs
unfolding kept
kept-kept w a b [] h = refl
kept-kept w a b (x ∷ xs) h = ground (arith, kept-kept w a b xs)

pub length-kept-le : (w now : ℕ) (xs : List ℕ) → length (kept w now xs) ≤ length xs
unfolding kept
length-kept-le w now [] = omega arith
length-kept-le w now (x ∷ xs) = ground (arith, length-kept-le w now xs)

-- How many of the times lie less than `w` before `now`
pub in_window : ℕ → ℕ → List ℕ → ℕ
in_window w now [] = 0
in_window w now (t ∷ ts) =
    let rest = in_window w now ts in if ltb now (t + w) then 1 + rest else rest

length-kept : (w now : ℕ) (ts : List ℕ) → length (kept w now ts) ≡ in_window w now ts
unfolding kept in_window
length-kept w now [] = refl
length-kept w now (t ∷ ts) = ground (arith, length-kept w now ts)

abbrev pub hits_of : String → Limiter → List ℕ
hits_of ip l = hits_or_nil (lookup ip l.hits)

pub allow-other :
    (now : ℕ) (j ip : String) (l : Limiter)
    → str_eq j ip ≡ false
    → hits_of ip (allow now j l).1 ≡ hits_of ip l
unfolding allow
allow-other now j ip l miss =
    let recent = kept l.window now (hits_of j l) in
    ground (arith, lookup-put j ip recent l.hits, lookup-put j ip (recent ++ now ∷ []) l.hits)

-- What a call stores, refused or granted, and the test that it passed
pub allow-refused :
    (now : ℕ) (ip : String) (l : Limiter)
    → (allow now ip l).0 ≡ false
    → (hits_of ip (allow now ip l).1 ≡ kept l.window now (hits_of ip l))
      × (l.limit ≤ length (kept l.window now (hits_of ip l)))
unfolding allow
allow-refused now ip l h =
    let recent = kept l.window now (hits_of ip l) in
    (ground (arith, lookup-put_self ip recent l.hits), ground arith)

pub allow-granted :
    (now : ℕ) (ip : String) (l : Limiter)
    → (allow now ip l).0 ≡ true
    → (hits_of ip (allow now ip l).1 ≡ kept l.window now (hits_of ip l) ++ now ∷ [])
      × (length (kept l.window now (hits_of ip l)) < l.limit)
unfolding allow
allow-granted now ip l h =
    let recent = kept l.window now (hits_of ip l) in
    (ground (arith, lookup-put_self ip (recent ++ now ∷ []) l.hits), ground arith)

pub allow-settings :
    (now : ℕ) (ip : String) (l : Limiter)
    → ((allow now ip l).1.limit ≡ l.limit) × ((allow now ip l).1.window ≡ l.window)
unfolding allow
allow-settings now ip l = (ground arith, ground arith)

-- From the time `last` on, the stored hits of the address show what was granted to it in the window,
-- and that is at most the limit.
record Tracks (ip : String) (limit w last : ℕ) (l : Limiter) (granted : List ℕ) : Type 0 where
  limit_same : l.limit ≡ limit
  window_same : l.window ≡ w
  same : (t : ℕ) → last ≤ t → kept w t (hits_of ip l) ≡ kept w t granted
  bound : (t : ℕ) → last ≤ t → length (kept w t granted) ≤ limit

module _ (ip : String) (limit w last now : ℕ) (l : Limiter) (granted : List ℕ)
    (tr : Tracks ip limit w last l granted) (h : last ≤ now) where
  -- The hits that the call keeps are those that were granted in the window.
  recent-granted :
      (t : ℕ) → now ≤ t → kept w t (kept l.window now (hits_of ip l)) ≡ kept w t granted
  recent-granted t le =
      rw tr.window_same (kept-kept w now t (hits_of ip l) le ∙ tr.same t (omega arith))

  other-Tracks :
      (j : String) → str_eq j ip ≡ false → Tracks ip limit w now (allow now j l).1 granted
  other-Tracks j miss = record {
    limit_same = (allow-settings now j l).0 ∙ tr.limit_same;
    window_same = (allow-settings now j l).1 ∙ tr.window_same;
    same = λ t le. ap (kept w t) (allow-other now j ip l miss) ∙ tr.same t (omega arith);
    bound = λ t le. tr.bound t (omega arith);
  }

  refused-Tracks : (allow now ip l).0 ≡ false → Tracks ip limit w now (allow now ip l).1 granted
  refused-Tracks no' = record {
    limit_same = (allow-settings now ip l).0 ∙ tr.limit_same;
    window_same = (allow-settings now ip l).1 ∙ tr.window_same;
    same = λ t le. ap (kept w t) (allow-refused now ip l no').0 ∙ recent-granted t le;
    bound = λ t le. tr.bound t (omega arith);
  }

  granted-room :
      (allow now ip l).0 ≡ true
      → (t : ℕ) → now ≤ t
      → length (kept w t (granted ++ now ∷ [])) ≤ limit
  granted-room yes' t le = omega (
    arith,
    ap length (kept-append w t granted (now ∷ [])),
    length-append (kept w t granted) (kept w t (now ∷ [])),
    length-kept-le w t (now ∷ []),
    ap length (recent-granted t le),
    length-kept-le w t (kept l.window now (hits_of ip l)),
    (allow-granted now ip l yes').1,
    tr.limit_same,
  )

  granted-Tracks :
      (allow now ip l).0 ≡ true → Tracks ip limit w now (allow now ip l).1 (granted ++ now ∷ [])
  granted-Tracks yes' = record {
    limit_same = (allow-settings now ip l).0 ∙ tr.limit_same;
    window_same = (allow-settings now ip l).1 ∙ tr.window_same;
    same = λ t le.
        ap (kept w t) (allow-granted now ip l yes').0
        ∙ kept-append w t (kept l.window now (hits_of ip l)) (now ∷ [])
        ∙ ap (λ (xs : List ℕ). xs ++ kept w t (now ∷ [])) (recent-granted t le)
        ∙ sym (kept-append w t granted (now ∷ []));
    bound = granted-room yes';
  }

  recent-same : kept l.window now (hits_of ip l) ≡ kept w now granted
  recent-same = rw tr.window_same (tr.same now h)

  -- The test of the call is the specification's.
  allow-eq-ltb : (allow now ip l).0 ≡ ltb (length (kept w now granted)) limit
  allow-eq-ltb = elim (Bool-cases (allow now ip l).0) [
    | inl yes' ↦
        ground (arith, (allow-granted now ip l yes').1, tr.limit_same, ap length recent-same)
    | inr no' ↦ ground (arith, (allow-refused now ip l no').1, tr.limit_same, ap length recent-same)
  ]

  step-Tracks :
      (j : String)
      → Tracks ip limit w now
          (allow now j l).1
          (if (allow now j l).0 && str_eq j ip then granted ++ now ∷ [] else granted)
  step-Tracks j = elim (Bool-cases (str_eq j ip)) [
    | inr miss ↦ elim (Bool-cases (allow now j l).0) [
      | inl yes' ↦ rw (yes', miss) (other-Tracks j miss)
      | inr no' ↦ rw no' (other-Tracks j miss)
    ]
    | inl hit ↦
        rw ((eq_iff j ip).0 hit, eq_refl ip)
          (elim (Bool-cases (allow now ip l).0) [
            | inl yes' ↦ rw yes' (granted-Tracks yes')
            | inr no' ↦ rw no' (refused-Tracks no')
          ])
  ]

replay-Tracks :
    (ip : String) (limit w last : ℕ) (cs : List (ℕ × String)) (l : Limiter) (granted : List ℕ)
    → Tracks ip limit w last l granted
    → Ordered last cs
    → Tracks ip limit w (last_time last cs) (replay ip cs l granted).0 (replay ip cs l granted).1
unfolding replay
replay-Tracks ip limit w last [] l granted tr o = tr
replay-Tracks ip limit w last ((now, j) ∷ cs) l granted tr o =
    replay-Tracks ip limit w now cs (allow now j l).1
      (if (allow now j l).0 && str_eq j ip then granted ++ now ∷ [] else granted)
      (step-Tracks ip limit w last now l granted tr o.0 j) o.1

new_limiter-Tracks : (ip : String) (limit w : ℕ) → Tracks ip limit w 0 (new_limiter limit w) []
unfolding new_limiter kept lookup
new_limiter-Tracks ip limit w = record {
  limit_same = refl;
  window_same = refl;
  same = λ t le. refl;
  bound = λ t le. omega arith;
}

-- After any calls from any addresses, with a clock that does not go back, an address has been
-- granted at most `limit` calls less than the window's length before any time from the last call on,
-- and its next call is granted exactly if it has been granted fewer than `limit` of them.
pub sliding_window :
    (ip : String) (limit w : ℕ) (cs : List (ℕ × String)) (now : ℕ)
    → Ordered 0 cs
    → last_time 0 cs ≤ now
    → let r = replay ip cs (new_limiter limit w) [] in
      (in_window w now r.1 ≤ limit) × ((allow now ip r.0).0 ≡ ltb (in_window w now r.1) limit)
sliding_window ip limit w cs now o h =
    let r = replay ip cs (new_limiter limit w) [] in
    let tr =
      replay-Tracks ip limit w 0 cs (new_limiter limit w) [] (new_limiter-Tracks ip limit w) o in
    let count = length-kept w now r.1 in
    (
      subst (λ n. n ≤ limit) count (tr.bound now h),
      allow-eq-ltb ip limit w (last_time 0 cs) now _ _ tr h ∙ ap (λ n. ltb n limit) count,
    )
