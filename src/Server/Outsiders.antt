-- ===== src/Server/Outsiders.antt =====
-- What a request that carries no valid credential can do at the control panel as a whole.
use ldndrc.Base.{ℕ, ◌≡◌, ◌≢◌, refl, inl, inr, ◌⊎◌, String, false, none, some, arith, Option-cases}
use ldndrc.Gateway.Handler.{
  Library, Settings, passed, answered, route_of, serve_user, session_handler,
}
use ldndrc.Http.Auth.{verify_cookie, bearer_claims}
use ldndrc.Http.Router.{Setup, App, Turn, json, handle}
use ldndrc.Http.Strangers.{is_protected, stopped_by_guard, strangers_keep_out}
use ldndrc.Http.Types.{unauthorized}
use ldndrc.Server.Handler.{
  from_workspace, from_gateway, from_router, Incoming, behind_gateway, serve_incoming,
}

module _ {W : Type 0} (lib : Library) (vars : Settings) (setup : Setup W) (turn : Turn)
    (x : Incoming) (app : App W)
    (no_cookie : verify_cookie setup.keys turn.now x.request.cookie ≡ none) where
  gateway_refuses :
      (port : ℕ)
      → route_of lib vars x.host ≡ some port
      → session_handler lib vars setup.keys setup.provisioner turn.session_env x.host turn.now
          x.request.cookie app.sessions app.cluster
        ≡ (answered 401 "authentication required", app.sessions, app.cluster)
  unfolding session_handler serve_user
  gateway_refuses port e = ground (arith, e, no_cookie)

  gateway_passes :
      route_of lib vars x.host ≡ none
      → session_handler lib vars setup.keys setup.provisioner turn.session_env x.host turn.now
          x.request.cookie app.sessions app.cluster
        ≡ (passed, app.sessions, app.cluster)
  unfolding session_handler
  gateway_passes e = ground (arith, e)

  -- On the host of a workspace
  shut_out :
      (port : ℕ)
      → route_of lib vars x.host ≡ some port
      → serve_incoming lib vars setup turn x app ≡ (from_gateway 401 "authentication required", app)
  unfolding serve_incoming behind_gateway
  shut_out port e = rw (gateway_refuses port e) refl

  -- On any other host
  let_through :
      route_of lib vars x.host ≡ none
      → serve_incoming lib vars setup turn x app
        ≡ (from_router (handle setup turn x.request app).0, (handle setup turn x.request app).1)
  unfolding serve_incoming behind_gateway
  let_through e = rw (gateway_passes e) refl

  -- A request with neither a valid bearer token nor a valid session cookie is let into no workspace
  -- and never changes the sessions; on a pattern that asks for a token, or on the host of a
  -- workspace, it changes nothing at all and is answered with 401, or with 403 by the CSRF guard.
  pub outsiders_kept_out :
      bearer_claims setup.keys turn.now x.request.authorization ≡ none
      → let r = serve_incoming lib vars setup turn x app in
        ((target : String) → r.0 ≢ from_workspace target)
        × (r.1.sessions ≡ app.sessions)
        × (((is_protected x.request.route ≡ false) × (route_of lib vars x.host ≡ none))
            ⊎ ((r ≡ (from_gateway 401 "authentication required", app))
                ⊎ ((r ≡ (from_router (json unauthorized), app))
                    ⊎ (r ≡ (from_router (json stopped_by_guard), app)))))
  outsiders_kept_out no_token = elim (Option-cases (route_of lib vars x.host)) [
    | inr (port, e) ↦
        let same = shut_out port e in
        (λ target h. ground (arith, same, h), ground (arith, same), inr (inl same))
    | inl e ↦
        let same = let_through e in
        let (kept, cases) = strangers_keep_out setup turn x.request app no_token in
        (
          λ target h. ground (arith, same, h),
          ground (arith, same, kept),
          elim cases [
            | inl open_ ↦ inl (open_, e)
            | inr shut ↦ inr (
                inr (elim shut [
                  | inl a ↦ inl (ground (arith, same, a))
                  | inr b ↦ inr (ground (arith, same, b))
                ]))
          ],
        )
  ]
