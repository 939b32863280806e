-- ===== src/Sessions/ClusterLaws.antt =====
-- What the proofs about the Kubernetes provisioner take from the API server's documentation.
use ldndrc.Base.{
  ◌≡◌, sym, refl, inl, inr, String, Bool, true, false, not, ◌&&◌, ◌||◌, none, some, arith, str_eq,
  eq_iff, Bool-cases, Option-cases,
}
use ldndrc.Sessions.Types.{Session}
use ldndrc.Sessions.Manifests.{Kind, deployments, services, volume_claims, Resource, resource_name}
use ldndrc.Sessions.Cluster.{ApiError, not_found, Client}

abbrev pub same_kind : Kind → Kind → Bool
same_kind deployments deployments = true
same_kind services services = true
same_kind volume_claims volume_claims = true
same_kind _ _ = false

same_kind-eq : (a b : Kind) → same_kind a b ≡ true → a ≡ b
same_kind-eq deployments deployments h = refl
same_kind-eq services services h = refl
same_kind-eq volume_claims volume_claims h = refl
same_kind-eq deployments services h = cc
same_kind-eq deployments volume_claims h = cc
same_kind-eq services deployments h = cc
same_kind-eq services volume_claims h = cc
same_kind-eq volume_claims deployments h = cc
same_kind-eq volume_claims services h = cc

-- The object of the first kind and name is that of the second.
abbrev pub hits : Kind → String → Kind → String → Bool
hits a s b t = same_kind a b && str_eq s t

-- The object is one of the session's.
abbrev pub belongs : Session → Kind → String → Bool
belongs x k n = str_eq (resource_name k x) n

-- What Kubernetes documents of the API server: `holds` tells which objects a cluster has. A Create
-- that succeeds adds an object that was not there, a Delete that succeeds removes one, a request
-- that is refused changes nothing, and a Delete answers NotFound only for an object that is not
-- there.
pub record IsLawful {W : Type 0} (client : Client W) (holds : W → Kind → String → Bool)
    : Type 0 where
  pub was_free :
      (k : Kind) (r : Resource) (w : W) → (client.create k r w).0 ≡ none → holds w k r.name ≡ false
  pub adds :
      (k : Kind) (r : Resource) (w : W) (j : Kind) (n : String)
      → (client.create k r w).0 ≡ none
      → holds (client.create k r w).1 j n ≡ (hits k r.name j n || holds w j n)
  pub keeps :
      (k : Kind) (r : Resource) (w : W) (e : ApiError) (j : Kind) (n : String)
      → (client.create k r w).0 ≡ some e
      → holds (client.create k r w).1 j n ≡ holds w j n
  pub removes :
      (k : Kind) (s : String) (w : W) (j : Kind) (n : String)
      → (client.delete k s w).0 ≡ none
      → holds (client.delete k s w).1 j n ≡ (not (hits k s j n) && holds w j n)
  pub refuses :
      (k : Kind) (s : String) (w : W) (e : ApiError) (j : Kind) (n : String)
      → (client.delete k s w).0 ≡ some e
      → holds (client.delete k s w).1 j n ≡ holds w j n
  pub absent :
      (k : Kind) (s : String) (w : W) (t : String)
      → (client.delete k s w).0 ≡ some (not_found t)
      → holds w k s ≡ false

-- The API server deletes each object that is there.
abbrev pub DeletesAll : {W : Type 0} → Client W → (W → Kind → String → Bool) → Type 0
DeletesAll {W} client holds =
    (k : Kind) (s : String) (w : W) → holds w k s ≡ true → (client.delete k s w).0 ≡ none

module _ {W : Type 0} (client : Client W) (holds : W → Kind → String → Bool)
    (law : IsLawful client holds) (j : Kind) (n : String) where
  -- An object that is not there is not the one that is looked at, if that is there.
  pub held_elsewhere :
      (k : Kind) (s : String) (w : W) → holds w k s ≡ false → (hits k s j n && holds w j n) ≡ false
  held_elsewhere k s w free = elim (Bool-cases (hits k s j n)) [
    | inr miss ↦ ground arith
    | inl hit ↦
        let e : k ≡ j = same_kind-eq k j (ground arith) in
        let f : s ≡ n = (eq_iff s n).0 (ground arith) in
        let g : holds w j n ≡ holds w k s = λ i. holds w (sym e i) (sym f i) in
        ground (arith, g, free)
  ]

  pub delete-holds :
      DeletesAll client holds
      → (k : Kind) (s : String) (w : W)
      → holds (client.delete k s w).1 j n ≡ (not (hits k s j n) && holds w j n)
  delete-holds reliable k s w = elim (Option-cases (client.delete k s w).0) [
    | inl gone ↦ law.removes k s w j n gone
    | inr (e, refused) ↦ elim (Bool-cases (holds w k s)) [
      | inl there ↦ absurd (ground (arith, reliable k s w there))
      | inr free ↦
          let same = law.refuses k s w e j n refused in
          ground (arith, same, held_elsewhere k s w free)
    ]
  ]
