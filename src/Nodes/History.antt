-- ===== src/Nodes/History.antt =====
-- The life of a join request over every history of calls.
use ldndrc.Base.{
  ◌≡◌, refl, sym, ap, ◌∙◌, subst, ◌⊎◌, inl, inr, String, Bool, true, false, some, arith, str_eq,
  eq_iff, Bool-cases,
}
use ldndrc.Base.Map.{lookup, lookup-put}
use ldndrc.Nodes.Types.{Status, pending, denied, joined, Node, Profile, Store, Env, Library}
use ldndrc.Nodes.Store.{profile, new_node, register}
use ldndrc.Nodes.Steps.{Op, step, is_edge, IsFresh, Moves, Moves-refl, Reach, here, next}
use ldndrc.Nodes.Effects.{Effect, keeps, writes, target, update, step-Effect, step-registers}
use ldndrc.Nodes.Registering.{known, refused, added, register-Registered}

pub register-keeps :
    (lib : Library) (env : Env) (p : Profile) (s : Store) (id : String) (n : Node)
    → IsFresh env s
    → lookup id s.nodes ≡ some n
    → lookup id (register lib env p s).1.nodes ≡ some n
register-keeps lib env p s id n fresh h = elim (register-Registered lib env p s fresh) [
  | known i good there e ↦ rw e h
  | refused m why w e ↦ rw e h
  | added i f unused free e ↦
      rw e (ground (arith, lookup-put i id (new_node env p i) s.nodes, eq_iff i id))
]

pub Effect-Moves :
    {env : Env} {op : Op} {s t : Store} (id : String) (n : Node)
    → Effect env op s t
    → lookup id s.nodes ≡ some n
    → (n' : Node) × (lookup id t.nodes ≡ some n') × Moves n n'
Effect-Moves id n (keeps e) h = (n, rw e h, Moves-refl n)
Effect-Moves {env} {op} {s} id n (writes x found m nodes index) h =
    elim (Bool-cases (str_eq (target op) id)) [
      | inr miss ↦
          (n, ground (arith, lookup-put (target op) id (update env op x) s.nodes), Moves-refl n)
      | inl hit ↦
          let e : x ≡ n = ground (arith, eq_iff (target op) id) in
          (
            update env op x,
            ground (arith, lookup-put (target op) id (update env op x) s.nodes),
            subst (λ z. Moves z (update env op x)) e m,
          )
    ]

-- A call of Register, Approve, Deny, MarkMinted, MarkJoined or ExpireIfElapsed loses no request,
-- keeps who asked, and changes the status of each along one of the five edges at most: pending or
-- expired to approved, pending to denied, approved to joined, approved to expired.
pub step-Moves :
    (lib : Library) (env : Env) (op : Op) (s : Store) (id : String) (n : Node)
    → IsFresh env s
    → lookup id s.nodes ≡ some n
    → (n' : Node) × (lookup id (step lib env op s).nodes ≡ some n') × Moves n n'
step-Moves lib env op s id n fresh h = elim (step-Effect lib env op s) [
  | inr effect ↦ Effect-Moves id n effect h
  | inl (p, e) ↦
      subst (λ o. (n' : Node) × (lookup id (step lib env o s).nodes ≡ some n') × Moves n n') (sym e)
        (n, rw step-registers (register-keeps lib env p s id n fresh h), Moves-refl n)
]

abbrev pub is_final : Status → Bool
is_final denied = true
is_final joined = true
is_final _ = false

-- What is left of a request after any history.
pub record Follows (n n' : Node) : Type 0 where
  pub same_id : n'.id ≡ n.id
  pub same_name : n'.node_name ≡ n.node_name
  pub same_profile : profile n' ≡ profile n
  pub same_request : n'.requested ≡ n.requested
  pub final : is_final n.status ≡ true → n'.status ≡ n.status
  pub no_return : n'.status ≡ pending → n.status ≡ pending

edge-final : (a b : Status) → (b ≡ a) ⊎ (is_edge a b ≡ true) → is_final a ≡ true → b ≡ a
unfolding is_edge
edge-final a b e h = ground arith

edge-no_return : (a b : Status) → (b ≡ a) ⊎ (is_edge a b ≡ true) → b ≡ pending → a ≡ pending
unfolding is_edge
edge-no_return a b e h = ground arith

Follows-Moves : {a b c : Node} → Follows a b → Moves b c → Follows a c
Follows-Moves {a} {b} {c} f m = record {
  same_id = m.same_id ∙ f.same_id;
  same_name = m.same_name ∙ f.same_name;
  same_profile = m.same_profile ∙ f.same_profile;
  same_request = m.same_request ∙ f.same_request;
  final = λ h. edge-final b.status c.status m.edge (ap is_final (f.final h) ∙ h) ∙ f.final h;
  no_return = λ h. f.no_return (edge-no_return b.status c.status m.edge h);
}

-- Whatever calls follow, as long as the random bytes at each are not the ID of a stored request, a
-- request stays in the store with its ID, its laptop, its node name and its time; once denied or
-- joined it stays so; and nothing makes it pending again.
pub Reach-Follows :
    {lib : Library} {s t : Store} (id : String) (n : Node)
    → Reach lib s t
    → lookup id s.nodes ≡ some n
    → (n' : Node) × (lookup id t.nodes ≡ some n') × Follows n n'
Reach-Follows id n here h = (
  n,
  h,
  record {
    same_id = refl;
    same_name = refl;
    same_profile = refl;
    same_request = refl;
    final = λ e. refl;
    no_return = λ e. e;
  },
)
Reach-Follows {lib} id n (next {t = t} env op r fresh) h =
    let (b, there, f) = Reach-Follows id n r h in
    let (c, now, m) = step-Moves lib env op t id b fresh there in (c, now, Follows-Moves f m)
