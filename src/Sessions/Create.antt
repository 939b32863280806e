-- ===== src/Sessions/Create.antt =====
-- Create's locked section: what it answers on every branch, and its roll-back.
use ldndrc.Base.{
  ℕ, ◌≡◌, ◌⊎◌, inl, inr, String, false, none, some, ok, err, arith, str_eq, Bool-cases,
  Option-cases, Result-cases,
}
use ldndrc.Base.Map.{Map, lookup, put, remove-put, put-put}
use ldndrc.Sessions.Types.{
  Session, Error, session_exists, username_required, persist, File, saved, Store, Env,
}
use ldndrc.Sessions.Domain.{is_active, next_domain_id}
use ldndrc.Sessions.Store.{
  save_locked, has_active, new_id, new_session, restore, insert_session, create_locked,
}
use ldndrc.Sessions.Invariant.{IsWellFormed}

-- Taking back the write of a user's entry gives the old map.
restore-put : (u i : String) (m : Map String) → restore (lookup u m) u (put u i m) ≡ m
unfolding restore
restore-put u i m = elim (Option-cases (lookup u m)) [
  | inl e ↦ rw (e, restore) (remove-put u i m e)
  | inr (prev, e) ↦ rw (e, restore) (put-put u i prev m e)
]

-- A save changes the file at most.
pub save_locked_cases :
    (env : Env) (s : Store)
    → ((f : File) × (save_locked env s ≡ (none, record s { file = f })))
      ⊎ ((e : String) × (f : File) × (save_locked env s ≡ (some e, record s { file = f })))
unfolding save_locked
save_locked_cases env s = elim (Bool-cases (str_eq s.path "")) [
  | inl memory ↦ inl (s.file, ground arith)
  | inr disk ↦ elim (Option-cases env.write) [
    | inl written ↦ inl (saved s.sessions, ground arith)
    | inr ((e, left), failed) ↦ inr (e, left, ground arith)
  ]
]

-- The store with the new session in it.
abbrev pub with_session : Session → File → Store → Store
with_session x f s = record s {
  sessions = put x.id x s.sessions;
  by_user = put x.username x.id s.by_user;
  file = f;
}

-- With a fresh key the insertion adds the session, or fails to save and changes the file at most.
pub insert_session_cases :
    (env : Env) (x : Session) (s : Store)
    → lookup x.id s.sessions ≡ none
    → ((f : File) × (insert_session env x s ≡ (ok x, with_session x f s)))
      ⊎ ((e : String) × (f : File) × (insert_session env x s
            ≡ (err (persist e), record s { file = f })))
unfolding insert_session
insert_session_cases env x s fresh = elim (save_locked_cases env (with_session x s.file s)) [
  | inl (f, e) ↦ inl (f, ground arith)
  | inr (m, f, e) ↦ inr (
    m,
    f,
    ground (arith, remove-put x.id x s.sessions fresh, restore-put x.username x.id s.by_user),
  )
]

-- What Create's locked section may do: refuse and leave the store alone, add a session with the
-- next free domain ID for a user who has no active one, or fail to save.
pub create_locked_cases :
    (env : Env) (u : String) (s : Store)
    → ((e : Error) × (create_locked env u s ≡ (err e, s)))
      ⊎ ((id : String) × (d : ℕ) × (has_active s u ≡ false)
          × (new_id env.random ≡ ok id)
          × (next_domain_id s.sessions ≡ ok d)
          × (create_locked env u s ≡ insert_session env (new_session env u id d) s))
unfolding create_locked
create_locked_cases env u s = elim (Bool-cases (str_eq u "")) [
  | inl e ↦ inl (username_required, ground arith)
  | inr named ↦ elim (Bool-cases (has_active s u)) [
    | inl e ↦ inl (session_exists, ground arith)
    | inr idle ↦ elim (Result-cases (new_id env.random)) [
      | inr (e, h) ↦ inl (e, ground arith)
      | inl (id, h) ↦ elim (Result-cases (next_domain_id s.sessions)) [
        | inr (e, h') ↦ inl (e, ground arith)
        | inl (d, h') ↦ inr (id, d, idle, h, h', ground arith)
      ]
    ]
  ]
]

-- A user whose entry names no active session has none at all.
pub idle_of_has_active :
    (s : Store) (u i : String) (y : Session)
    → IsWellFormed s
    → has_active s u ≡ false
    → lookup i s.sessions ≡ some y
    → y.username ≡ u
    → is_active y.status ≡ false
unfolding has_active
idle_of_has_active s u i y wf idle h e = elim (Bool-cases (is_active y.status)) [
  | inl a ↦ ground (arith, wf.owned i y h a)
  | inr f ↦ f
]
