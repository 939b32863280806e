-- ===== src/Sessions/Restart.antt =====
-- A restart of the control panel: the store that NewStoreWithPath builds from a saved file.
use ldndrc.Base.{
  ◌≡◌, ◌≢◌, ◌↔◌, refl, sym, ap, subst, ◌∙◌, inl, inr, String, some, [], ok, arith, eq_iff,
  Option-cases,
}
use ldndrc.Base.Map.{Visits, Map, lookup}
use ldndrc.Sessions.Types.{Session, File, absent, saved, Store}
use ldndrc.Sessions.Load.{load_entries, new_store_with_path}
use ldndrc.Sessions.Invariant.{IsWellFormed}
use ldndrc.Sessions.Sections.{empty-IsWellFormed}
use ldndrc.Sessions.Loading.{Active, Partly, load_entries-Partly, load_entries-lookup}

-- A store that holds nothing yet.
empty : String → File → Store
empty path f = record { path = path; sessions = []; by_user = []; file = f }

Partly-empty : (s : Store) (path : String) (f : File) → Partly s (empty path f)
unfolding empty lookup
Partly-empty s path f = record {
  unique = tt;
  sub = λ k x h. absurd (cc);
  owned = λ k x h. cc;
  entry = λ u i h. absurd (cc);
}

module _ (s : Store) (wf : IsWellFormed s) (visited : Map Session) (v : Visits visited s.sessions)
    (path : String) where
  loaded : Store
  loaded = load_entries visited (empty path (saved visited))

  loaded-Partly : Partly s loaded
  unfolding loaded empty lookup
  loaded-Partly =
      load_entries-Partly s _ visited wf (Partly-empty s path (saved visited))
        (record { apart = v.once; known = λ k x h. sym (v.same k) ∙ h; fresh = λ k x h. refl })

  loaded-lookup : (k : String) → lookup k loaded.sessions ≡ lookup k s.sessions
  unfolding loaded
  loaded-lookup k = elim (Option-cases (lookup k s.sessions)) [
    | inr (x, e) ↦ load_entries-lookup k x _ visited (inl (v.same k ∙ e)) v.once ∙ sym e
    | inl e ↦ elim (Option-cases (lookup k loaded.sessions)) [
      | inl e' ↦ e' ∙ sym e
      | inr (x, e') ↦ absurd (cc (loaded-Partly.sub k x e', e))
    ]
  ]

  loaded-IsWellFormed : IsWellFormed loaded
  loaded-IsWellFormed = record {
    unique = loaded-Partly.unique;
    keyed = λ i x h. wf.keyed i x (loaded-Partly.sub i x h);
    ranged = λ i x h. wf.ranged i x (loaded-Partly.sub i x h);
    isolated =
        λ i j x y h h'. wf.isolated i j x y (loaded-Partly.sub i x h) (loaded-Partly.sub j y h');
    owned = loaded-Partly.owned;
    entry = λ u i h. let c = loaded-Partly.entry u i h in (c.session, c.found, c.user);
  }

  loaded-entry : (u i : String) → (lookup u loaded.by_user ≡ some i) ↔ Active s.sessions u i
  loaded-entry u i = (
    λ h.
        let c = loaded-Partly.entry u i h in
        record {
          session = c.session;
          found = loaded-Partly.sub i c.session c.found;
          user = c.user;
          active = c.active;
        },
    λ c. rw (← c.user) (loaded-Partly.owned i c.session (loaded-lookup i ∙ c.found) c.active),
  )

-- A restart loses nothing: from the file of a well-formed store, in whatever order its entries are
-- visited, NewStoreWithPath builds a well-formed store with the same sessions, whose index of users
-- names exactly the active session of each user.
pub restart_rebuilds :
    (s : Store) (visited : Map Session) (path : String)
    → IsWellFormed s
    → Visits visited s.sessions
    → path ≢ ""
    → (t : Store) × (new_store_with_path path (saved visited) ≡ ok t)
      × IsWellFormed t
      × ((k : String) → lookup k t.sessions ≡ lookup k s.sessions)
      × ((u i : String) → (lookup u t.by_user ≡ some i) ↔ Active s.sessions u i)
unfolding new_store_with_path loaded empty
restart_rebuilds s visited path wf v named = (
  loaded s wf visited v path,
  ground (arith, eq_iff path ""),
  loaded-IsWellFormed s wf visited v path,
  loaded-lookup s wf visited v path,
  loaded-entry s wf visited v path,
)

-- The file of sessions that a start finds: none, or what a well-formed store has saved
pub data WellSaved (f : File) : Type 0 where
  first_start : f ≡ absent → WellSaved f
  saved_by :
      (s : Store) (visited : Map Session)
      → f ≡ saved visited
      → IsWellFormed s
      → Visits visited s.sessions
      → WellSaved f

pub new_store_with_path-IsWellFormed :
    (path : String) (f : File) (t : Store)
    → path ≢ ""
    → WellSaved f
    → new_store_with_path path f ≡ ok t
    → IsWellFormed t
unfolding new_store_with_path
new_store_with_path-IsWellFormed path f t named (first_start e) h =
    subst IsWellFormed (ground (arith, e, h, named, eq_iff path ""))
      (empty-IsWellFormed path absent)
new_store_with_path-IsWellFormed path f t named (saved_by s visited e wf v) h =
    let (t', built, well, _, _) = restart_rebuilds s visited path wf v named in
    subst IsWellFormed (cc (sym built ∙ ap (new_store_with_path path) (sym e) ∙ h)) well
