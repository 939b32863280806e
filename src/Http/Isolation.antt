-- ===== src/Http/Isolation.antt =====
-- The session handlers disclose no session of another user.
use ldndrc.Base.{
  ◌≡◌, refl, sym, subst, inl, inr, String, Option, some, List, [], ◌∷◌, Result, ok, err, All, arith,
  Option-cases, Result-cases,
}
use ldndrc.Base.Map.{lookup}
use ldndrc.Http.Types.{Body, session, sessions, Response, write_json}
use ldndrc.Http.Sessions.{
  create_response, session_response, write_session_error, post_session, get_sessions, get_session,
  delete_session,
}
use ldndrc.Sessions.Types.{Session, Error, session_exists, Store, Env, Provisioner}
use ldndrc.Sessions.Methods.{list_sessions, create, get, delete, provision_session}
use ldndrc.Sessions.Invariant.{IsWellFormed}
use ldndrc.Sessions.Store.{create_locked}
use ldndrc.Sessions.Sections.{IsFresh}
use ldndrc.Sessions.Creation.{create_locked-Created}
use ldndrc.Sessions.Answers.{get-ok, delete-ok}

-- The sessions that a body shows
abbrev pub shown : Body → List Session
shown (session x) = x ∷ []
shown (sessions xs) = xs
shown _ = []

-- Each of them is the user's.
abbrev pub Own : String → Response → Type 0
Own u r = All (λ (x : Session). x.username ≡ u) (shown r.body)

create_response-Own :
    (u : String) (r : Result Error Session)
    → ((x : Session) → r ≡ ok x → x.username ≡ u)
    → Own u (create_response r)
unfolding create_response write_json
create_response-Own u (ok x) h = (h x refl, tt)
create_response-Own u (err session_exists) h = tt
create_response-Own u (err _) h = tt

session_response-Own :
    (u : String) (r : Result Error Session)
    → ((x : Session) → r ≡ ok x → x.username ≡ u)
    → Own u (session_response r)
unfolding session_response write_session_error write_json
session_response-Own u (ok x) h = (h x refl, tt)
session_response-Own u (err e) h = tt

list_sessions-Own :
    (u : String) (s : Store)
    → IsWellFormed s
    → All (λ (x : Session). x.username ≡ u) (list_sessions u s)
unfolding list_sessions
list_sessions-Own u s wf = elim (Option-cases (lookup u s.by_user)) [
  | inl e ↦
      let none_shown : list_sessions u s ≡ [] = ground arith in
      subst (All (λ (x : Session). x.username ≡ u)) (sym none_shown) tt
  | inr (id, e) ↦
      let (x, found, mine) = wf.entry u id e in
      let one_shown : list_sessions u s ≡ x ∷ [] = ground arith in
      subst (All (λ (x : Session). x.username ≡ u)) (sym one_shown) (mine, tt)
]

module _ {W : Type 0} (p : Option (Provisioner W)) (env later : Env) (s : Store) (w : W) where
  provision_session-ok :
      (x y : Session) (t : Store) → (provision_session p later y t w).0 ≡ ok x → y ≡ x
  unfolding provision_session
  provision_session-ok x y t h = elim (Option-cases p) [
    | inl e ↦ ground arith
    | inr (q, e) ↦ ground arith
  ]

  create-ok :
      (u : String) (x : Session)
      → IsFresh env s
      → (create p env later u s w).0 ≡ ok x
      → x.username ≡ u
  unfolding create
  create-ok u x fresh h = elim (Result-cases (create_locked env u s).0) [
    | inr (e, bad) ↦ absurd (ground arith)
    | inl (y, good) ↦
        let c = create_locked-Created env u s (create_locked env u s).1 y fresh (ground arith) in
        ground (arith, c.user, provision_session-ok x y (create_locked env u s).1)
  ]

  -- The sessions in the answers of the four session handlers all belong to the user of the bearer
  -- token, if the store is well formed and a new session draws an ID that is not in use.
  pub no_foreign_sessions :
      (u id : String)
      → IsFresh env s
      → IsWellFormed s
      → Own u (post_session p env later s w (some u)).0
        × Own u (get_sessions p env later s w (some u)).0
        × Own u (get_session p env later s w id (some u)).0
        × Own u (delete_session p env later s w id (some u)).0
  unfolding post_session get_sessions get_session delete_session write_json
  no_foreign_sessions u id fresh wf = (
    create_response-Own u (create p env later u s w).0 (λ x e. create-ok u x fresh e),
    list_sessions-Own u s wf,
    session_response-Own u (get p env u id s w).0 (λ x e. (get-ok p env u id x s w e).1),
    session_response-Own u (delete p env later u id s w).0
        (λ x e. (delete-ok p env later u id x s w e).1),
  )
