-- ===== src/Gateway/Ownership.antt =====
-- The gateway lets a user into nothing but the user's own running workspace.
use ldndrc.Base.{
  ℕ, ◌≡◌, refl, inl, inr, String, true, Option, some, Result, ok, err, arith, Option-cases,
}
use ldndrc.Base.Map.{lookup}
use ldndrc.Http.Auth.{Keys, verify_cookie}
use ldndrc.Sessions.Types.{Status, ready, Session, Error, Store, Env, Provisioner}
use ldndrc.Sessions.Methods.{current}
use ldndrc.Sessions.Invariant.{IsWellFormed}
use ldndrc.Sessions.Answers.{probe-ok}
use ldndrc.Gateway.Handler.{
  Settings, Library, proxied, route_of, target_of, is_ready, forward, serve_user, session_handler,
}

-- The user's session that a request is let into
pub record Entry (lib : Library) (vars : Settings) (host u target : String) (t : Store)
    : Type 0 where
  pub session : Session
  pub id : String
  pub port : ℕ
  pub stored : lookup id t.sessions ≡ some session
  pub owner : session.username ≡ u
  pub running : session.status ≡ ready
  pub route : route_of lib vars host ≡ some port
  pub address : target ≡ target_of vars session port

is_ready-eq : (s : Status) → is_ready s ≡ true → s ≡ ready
is_ready-eq ready h = refl
is_ready-eq _ h = absurd (ground arith)

forward-proxied :
    (lib : Library) (vars : Settings) (port : ℕ) (r : Result Error Session) (target : String)
    → forward lib vars port r ≡ proxied target
    → (x : Session) × (r ≡ ok x) × (x.status ≡ ready) × (target ≡ target_of vars x port)
unfolding forward
forward-proxied lib vars port (err e) target h = absurd (ground arith)
forward-proxied lib vars port (ok x) target h =
    (x, refl, is_ready-eq x.status (ground arith), ground arith)

module _ {W : Type 0} (lib : Library) (vars : Settings) (keys : Keys) (p : Option (Provisioner W))
    (env : Env) where
  current-stored :
      (u : String) (x : Session) (s : Store) (w : W)
      → IsWellFormed s
      → (current p env u s w).0 ≡ ok x
      → (id : String) × (lookup id (current p env u s w).1.sessions ≡ some x) × (x.username ≡ u)
  unfolding current
  current-stored u x s w wf h = elim (Option-cases (lookup u s.by_user)) [
    | inl e ↦ absurd (ground arith)
    | inr (id, e) ↦
        let (y, found, mine) = wf.entry u id e in
        let answer = probe-ok p env u id y x s w found mine in
        (id, ground (arith, answer), ground (arith, answer))
  ]

  -- A request is proxied only to the service of a session that the store holds, that is ready, and
  -- that belongs to the user whom the session cookie names, at the port of the route that the host
  -- names.
  pub own_workspace :
      (host : String) (now : ℕ) (cookie : Option String) (s : Store) (w : W) (target : String)
      → IsWellFormed s
      → let r = session_handler lib vars keys p env host now cookie s w in
        r.0 ≡ proxied target
        → (u : String) × (verify_cookie keys now cookie ≡ some u) × Entry lib vars host u target r.1
  unfolding session_handler serve_user
  own_workspace host now cookie s w target wf h = elim (Option-cases (route_of lib vars host)) [
    | inl e ↦ absurd (ground arith)
    | inr (port, route) ↦ elim (Option-cases (verify_cookie keys now cookie)) [
      | inl e ↦ absurd (ground arith)
      | inr (u, good) ↦
          let (x, found, running, address) =
            forward-proxied lib vars port (current p env u s w).0 target (ground arith) in
          let (id, stored, mine) = current-stored u x s w wf found in
          (
            u,
            good,
            record {
              session = x;
              id = id;
              port = port;
              stored = ground arith;
              owner = mine;
              running = running;
              route = route;
              address = address;
            },
          )
    ]
  ]
