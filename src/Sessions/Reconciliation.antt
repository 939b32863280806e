-- ===== src/Sessions/Reconciliation.antt =====
-- Reconcile: which sessions a start of the control panel adopts and which it ends.
use ldndrc.Base.{
  ℕ, ◌+◌, ◌≡◌, refl, sym, ◌∙◌, subst, inl, inr, String, Bool, true, false, not, ◌&&◌, none, some,
  List, [], ◌∷◌, arith, str_eq, eq_iff, eq_refl, Bool-cases, any, if◌then◌else◌,
}
use ldndrc.Base.Map.{Map, lookup, IsUnique, lookup-put}
use ldndrc.Sessions.Types.{stopped, Session, File, Store, Env}
use ldndrc.Sessions.Store.{set_status, valid_transition}
use ldndrc.Sessions.Methods.{is_live, live_sessions, is_ok, reconcile_loop, reconcile}
use ldndrc.Sessions.Invariant.{IsWellFormed}
use ldndrc.Sessions.Status.{restatus, with_status, set_status-found}
use ldndrc.Base.Map.{Visits}

-- The session ID stands in the list.
listed : String → List Session → Bool
listed id xs = any (λ x. str_eq x.id id) xs

-- The sessions of the list are live, stored under their IDs, and each is there once.
abbrev Due : List Session → Store → Type 0
Due [] s = Unit
Due (x ∷ xs) s =
    (lookup x.id s.sessions ≡ some x)
    × (is_live x.status ≡ true)
    × (listed x.id xs ≡ false)
    × Due xs s

Due-put :
    (id : String) (y : Session) (f : File) (xs : List Session) (s : Store)
    → listed id xs ≡ false
    → Due xs s
    → Due xs (with_status id y f s)
unfolding listed
Due-put id y f [] s h d = tt
Due-put id y f (x ∷ xs) s h d = (
  ground (arith, lookup-put id x.id y s.sessions, eq_iff id x.id, eq_iff x.id id),
  d.1,
  d.2,
  Due-put id y f xs s (ground arith) d.3,
)

live-valid : (x : Session) → is_live x.status ≡ true → valid_transition x.status stopped ≡ true
unfolding valid_transition
live-valid x h = ground arith

module _ (found : Session → Bool) (env : Session → Env) where
  ended : Session → Session
  ended x = restatus (env x) stopped "workload gone at restart" x

  -- What Reconcile makes of a session that it looks at (`due`) or does not look at.
  verdict : Bool → Session → Session
  verdict due x = if due && not (found x) then ended x else x

  loop-verdict :
      (id : String) (x : Session) (xs : List Session) (a t : ℕ) (s : Store)
      → Due xs s
      → lookup id s.sessions ≡ some x
      → lookup id (reconcile_loop found env xs a t s).2.sessions ≡ some (verdict (listed id xs) x)
  unfolding reconcile_loop verdict listed ended
  loop-verdict id x [] a t s d h = h
  loop-verdict id x (y ∷ ys) a t s d h = elim (Bool-cases (found y)) [
    | inl there ↦
        rw (there, reconcile_loop)
          (loop-verdict id x ys (a + 1) t s d.3 h ∙ ground (arith, eq_iff y.id id, d.0))
    | inr gone ↦
        let r = set_status (env y) y.username y.id stopped "workload gone at restart" s in
        let (f, e) =
          set_status-found (env y) y.username y.id stopped "workload gone at restart" y s d.0 refl
            (live-valid y d.1) in
        let due : Due ys r.1 = subst (Due ys) (sym e) (Due-put y.id (ended y) f ys s d.2 d.3) in
        let put_here = lookup-put y.id id (ended y) s.sessions in
        rw (gone, reconcile_loop)
          (elim (Bool-cases (str_eq y.id id)) [
            | inl hit ↦
                loop-verdict id (ended y) ys a (t + is_ok r.0) r.1 due (ground (arith, e, put_here))
                ∙ ground (arith, eq_iff y.id id, d.0, d.2)
            | inr miss ↦
                loop-verdict id x ys a (t + is_ok r.0) r.1 due (ground (arith, e, put_here))
                ∙ ground arith
          ])
  ]

-- The entries of the list stand under the IDs of their sessions, and no key stands twice.
abbrev Keyed : Map Session → Type 0
Keyed [] = Unit
Keyed ((k, x) ∷ m) = (x.id ≡ k) × (lookup k m ≡ none) × Keyed m

Keyed-of_visits :
    (s : Store) (m : Map Session)
    → IsUnique m
    → ((k : String) (x : Session) → lookup k m ≡ some x → x.id ≡ k)
    → Keyed m
unfolding lookup
Keyed-of_visits s [] u h = tt
Keyed-of_visits s ((k, x) ∷ m) u h = (
  h k x (rw (eq_refl k)),
  u.0,
  Keyed-of_visits s m u.1 (λ j y e. h j y (ground (arith, eq_iff k j, u.0))),
)

listed-absent :
    (id : String) (m : Map Session)
    → Keyed m
    → lookup id m ≡ none
    → listed id (live_sessions m) ≡ false
unfolding lookup listed live_sessions
listed-absent id [] k h = refl
listed-absent id ((j, x) ∷ m) k h =
    ground (arith, eq_iff j id, eq_iff x.id id, listed-absent id m k.2)

-- The first loop lists a stored session exactly if it is live.
listed-live :
    (id : String) (x : Session) (m : Map Session)
    → Keyed m
    → lookup id m ≡ some x
    → listed id (live_sessions m) ≡ is_live x.status
unfolding lookup listed live_sessions
listed-live id x [] k h = absurd (cc)
listed-live id x ((j, y) ∷ m) k h =
    ground (arith, eq_iff j id, eq_iff y.id id, listed-live id x m k.2, listed-absent id m k.2)

live_sessions-Due :
    (s : Store) (m : Map Session)
    → Keyed m
    → ((k : String) (x : Session) → lookup k m ≡ some x → lookup k s.sessions ≡ some x)
    → Due (live_sessions m) s
unfolding lookup live_sessions
live_sessions-Due s [] k h = tt
live_sessions-Due s ((j, x) ∷ m) k h =
    let rest = live_sessions-Due s m k.2 (λ i y e. h i y (ground (arith, eq_iff j i, k.1))) in
    let mine : lookup j s.sessions ≡ some x = h j x (rw (eq_refl j)) in
    elim (Bool-cases (is_live x.status)) [
      | inr past ↦ rw (past, live_sessions) rest
      | inl live ↦
          rw (live, live_sessions)
            (
              subst (λ i. lookup i s.sessions ≡ some x) (sym k.0) mine,
              live,
              subst (λ i. listed i (live_sessions m) ≡ false) (sym k.0) (listed-absent j m k.2 k.1),
              rest,
            )
    ]

-- After Reconcile over all sessions of a well-formed store, in any order, every session of which
-- the status was provisioning, ready or stopping and whose workload is gone is stopped with the
-- message, even if that could not be saved, and every other session is as it was.
pub reconcile-verdict :
    (s : Store) (visited : Map Session) (found : Session → Bool) (env : Session → Env) (id : String)
    (x : Session)
    → IsWellFormed s
    → Visits visited s.sessions
    → lookup id s.sessions ≡ some x
    → lookup id (reconcile visited found env s).2.sessions
      ≡ some (
          if is_live x.status && not (found x)
          then restatus (env x) stopped "workload gone at restart" x
          else x)
unfolding reconcile verdict ended
reconcile-verdict s visited found env id x wf v h =
    let known : (k : String) (y : Session)
        → lookup k visited ≡ some y
        → lookup k s.sessions ≡ some y =
      λ k y e. sym (v.same k) ∙ e in
    let keyed = Keyed-of_visits s visited v.once (λ k y e. wf.keyed k y (known k y e)) in
    rw (← listed-live id x visited keyed (v.same id ∙ h)) (
      loop-verdict found env id x (live_sessions visited) 0 0 s
        (live_sessions-Due s visited keyed known) h)
