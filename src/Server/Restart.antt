-- ===== src/Server/Restart.antt =====
-- What a restart of the control panel inside the cluster makes of the sessions on the disk.
use ldndrc.Base.{
  ap, ne_of_str_eq, ◌≡◌, ◌≢◌, ◌∙◌, refl, sym, subst, inl, inr, String, true, ◌&&◌, not, some, ok,
  err, Result, arith, str_eq, eq_iff, Bool-cases, Option-cases, if◌then◌else◌,
}
use ldndrc.Base.Map.{Map, lookup, Visits}
use ldndrc.Sessions.Types.{Session, saved, stopped, Store}
use ldndrc.Sessions.Invariant.{IsWellFormed}
use ldndrc.Sessions.Load.{new_store_with_path}
use ldndrc.Sessions.Methods.{is_live}
use ldndrc.Sessions.Status.{restatus}
use ldndrc.Sessions.Restart.{restart_rebuilds}
use ldndrc.Sessions.Reconciliation.{reconcile-verdict}
use ldndrc.Sessions.Sections.{Reach-IsWellFormed}
use ldndrc.Sessions.Calls.{reconcile-Reach}
use ldndrc.Nodes.Types
use ldndrc.Nodes.Invariant
use ldndrc.Nodes.Store.{new_store}
use ldndrc.Nodes.Reload.{reload_keeps_nodes}
use ldndrc.Sessions.Cluster.{Client, workload_exists}
use ldndrc.Server.Start.{
  start_parts, backend_of, load_nodes, parse_port, kube_client, Backend, provisioner_client, Vars,
  System, Started, is_in_cluster, sessions_path, nodes_path, load_sessions, reconciled, in_cluster,
  start, and_then, fatal,
}

and_then-ok :
    {A B : Type 0} (r : Result String A) (k : A → Result String B) (b : B)
    → and_then r k ≡ ok b
    → (a : A) × (r ≡ ok a) × (k a ≡ ok b)
and_then-ok (ok a) k b h = (a, refl, h)
and_then-ok (err e) k b h = absurd (cc)

pub fatal-ok :
    {A : Type 0} (text : String) (r : Result String A) (a : A) → fatal text r ≡ ok a → r ≡ ok a
fatal-ok text (ok a') a h = h
fatal-ok text (err e) a h = absurd (cc)

module _ {W : Type 0} (vars : Vars) (sys : System W) where
  provisioner_client-ok :
      (client : Client W) → provisioner_client vars sys ≡ ok client → sys.dynamic_client ≡ ok client
  unfolding provisioner_client
  provisioner_client-ok client h = elim (Option-cases sys.config) [
    | inl fine ↦
        fatal-ok "create Kubernetes client" sys.dynamic_client client (ground (arith, fine))
    | inr (e, bad) ↦ absurd (ground (arith, bad))
  ]

  pub in_cluster-ok :
      (b : Backend W)
      → in_cluster vars sys ≡ ok b
      → (client : Client W) × (s : Store) × (sys.dynamic_client ≡ ok client)
        × (load_sessions vars sys ≡ ok s)
        × (b.sessions ≡ reconciled vars sys client s)
  unfolding in_cluster
  in_cluster-ok b h =
      let (client, got, h1) = and_then-ok _ _ b h in
      let (s, loaded, h2) = and_then-ok (load_sessions vars sys) _ b h1 in
      let (create_secret, _, h3) = and_then-ok (kube_client vars sys) _ b h2 in
      (
        client,
        s,
        provisioner_client-ok client (fatal-ok _ _ client got),
        loaded,
        ground (arith, h3),
      )

  pub start_parts-loaded :
      (st : Started W)
      → start_parts vars sys ≡ ok st
      → (s : Store) × (load_sessions vars sys ≡ ok s)
        × (load_nodes vars sys ≡ ok st.nodes)
        × (backend_of vars sys s ≡ ok st.backend)
  unfolding start_parts
  start_parts-loaded st h =
      let (s, read, h1) = and_then-ok (load_sessions vars sys) _ st h in
      let (nodes, found, h2) = and_then-ok (load_nodes vars sys) _ st h1 in
      let (b, built, h3) = and_then-ok (backend_of vars sys s) _ st h2 in
      let (port, _, h4) = and_then-ok (parse_port vars sys) _ st h3 in
      (s, read, ground (arith, found, h4), ground (arith, built, h4))

  start_parts-cluster :
      (st : Started W)
      → is_in_cluster vars ≡ true
      → start_parts vars sys ≡ ok st
      → in_cluster vars sys ≡ ok st.backend
  unfolding backend_of
  start_parts-cluster st inside h =
      let (s, _, _, built) = start_parts-loaded st h in ground (arith, built, inside)

pub start-parts :
    {W : Type 0} (vars : Vars) (sys : System W) (st : Started W)
    → start vars sys ≡ ok st
    → start_parts vars sys ≡ ok st
unfolding start
start-parts vars sys st h = elim (Bool-cases (str_eq vars.jwt_secret "")) [
  | inl empty ↦ absurd (ground (arith, empty))
  | inr named ↦ ground (arith, named)
]

value_or : {A : Type 0} → A → Result String A → A
value_or a (ok b) = b
value_or a (err e) = a

-- Two results of one call are the same.
ok_injective : {A : Type 0} (r : Result String A) (a b : A) → r ≡ ok a → r ≡ ok b → a ≡ b
unfolding value_or
ok_injective r a b e f = ap (value_or a) (sym e ∙ f)

pub sessions_path-named : (vars : Vars) → sessions_path vars ≢ ""
sessions_path-named vars e = elim (Bool-cases (str_eq vars.sessions_db "")) [
  | inl empty ↦ ne_of_str_eq "/var/lib/ldndrc/sessions.json" "" refl (ground (arith, empty, e))
  | inr named ↦ ground (arith, named, e, eq_iff vars.sessions_db "")
]

-- When the control panel starts again in the cluster, from the files of well-formed stores, and
-- starts at all, its stores are well formed, every session whose status was provisioning, ready or
-- stopping and whose deployment is gone is stopped, even if that could not be saved, every other
-- session is as it was on the disk, and so is every join request; in whatever order the maps are
-- visited.
pub restart_in_cluster :
    {W : Type 0} (vars : Vars) (sys : System W) (st : Started W) (client : Client W) (s : Store)
    (visited : Map Session) (n : Types.Store) (nodes : Map Types.Node) (id : String) (x : Session)
    → is_in_cluster vars ≡ true
    → start vars sys ≡ ok st
    → sys.dynamic_client ≡ ok client
    → sys.session_file (sessions_path vars) ≡ saved visited
    → IsWellFormed s
    → Visits visited s.sessions
    → sys.node_file (nodes_path vars) ≡ Types.saved nodes
    → Invariant.IsWellFormed sys.lib n
    → Visits nodes n.nodes
    → ((t : Store) → IsWellFormed t → Visits (sys.visits t) t.sessions)
    → lookup id s.sessions ≡ some x
    → IsWellFormed st.backend.sessions
      × (lookup id st.backend.sessions.sessions
          ≡ some (
              if is_live x.status && not (workload_exists client x sys.cluster).0
              then restatus (sys.env x) stopped "workload gone at restart" x
              else x))
      × Invariant.IsWellFormed sys.lib st.nodes
      × ((k : String) → lookup k st.nodes.nodes ≡ lookup k n.nodes)
unfolding load_sessions load_nodes reconciled
restart_in_cluster vars sys st client s visited n nodes id x inside h connected disk wf v node_disk
      wn vn order found =
    let parts = start-parts vars sys st h in
    let (client', s', got, read, same) =
      in_cluster-ok vars sys st.backend (start_parts-cluster vars sys st inside parts) in
    let (_, _, found_nodes, _) = start_parts-loaded vars sys st parts in
    let path = sessions_path vars in
    let (t, built, twf, kept, _) =
      restart_rebuilds s visited path wf v (sessions_path-named vars) in
    let (nt, reloaded, nwf, nkept) = reload_keeps_nodes sys.lib n nodes wn vn in
    let loaded : new_store_with_path path (saved visited) ≡ ok s' =
      rw (← disk)
        (fatal-ok "load sessions db" (new_store_with_path path (sys.session_file path)) s' read) in
    let nodes_loaded : new_store sys.lib (Types.saved nodes) ≡ ok st.nodes =
      rw (← node_disk) (fatal-ok "load nodes db" _ st.nodes found_nodes) in
    let one : client' ≡ client = ok_injective sys.dynamic_client client' client got connected in
    let two : s' ≡ t = ok_injective (new_store_with_path path (saved visited)) s' t loaded built in
    let three : nt ≡ st.nodes = ok_injective _ nt st.nodes reloaded nodes_loaded in
    let whole : st.backend.sessions ≡ reconciled vars sys client t =
      same ∙ (λ i. reconciled vars sys (one i) (two i)) in
    let exists = λ (y : Session). (workload_exists client y sys.cluster).0 in
    let verdict =
      reconcile-verdict t (sys.visits t) exists sys.env id x twf (order t twf) (kept id ∙ found) in
    (
      subst IsWellFormed (sym whole)
          (Reach-IsWellFormed twf (reconcile-Reach (sys.visits t) exists sys.env t)),
      ap (λ (u : Store). lookup id u.sessions) whole ∙ verdict,
      subst (Invariant.IsWellFormed sys.lib) three nwf,
      λ k. ap (λ (u : Types.Store). lookup k u.nodes) (sym three) ∙ nkept k,
    )
