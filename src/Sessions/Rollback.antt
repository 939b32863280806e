-- ===== src/Sessions/Rollback.antt =====
-- Apply of the Kubernetes provisioner leaves no partial workspace.
use ldndrc.Base.{
  ◌≡◌, sym, subst, refl, ◌⊎◌, inl, inr, String, Bool, false, not, ◌&&◌, ◌||◌, Option, none, some,
  List, [], ◌∷◌, ◌++◌, any, All, arith, Option-cases,
}
use ldndrc.Sessions.Types.{Session}
use ldndrc.Sessions.Manifests.{
  Settings, Kind, deployments, services, volume_claims, Resource, resource_gvr, resource_name,
  resources, volume_claim, deployment, service,
}
use ldndrc.Sessions.Cluster.{ApiError, Client, roll_back, create_all, create_error, apply}
use ldndrc.Sessions.ClusterLaws.{hits, belongs, IsLawful, DeletesAll, held_elsewhere, delete-holds}

module _ {W : Type 0} (client : Client W) (holds : W → Kind → String → Bool)
    (law : IsLawful client holds) (x : Session) (j : Kind) (n : String) where
  -- The object is one of those that the loop has created.
  abbrev pub covered : List Kind → Bool
  covered ks = any (λ k. hits k (resource_name k x) j n) ks

  covered-append :
      (ks : List Kind) (k : Kind)
      → covered (ks ++ k ∷ []) ≡ (covered ks || hits k (resource_name k x) j n)
  covered-append [] k = ground arith
  covered-append (g ∷ ks) k = ground (arith, covered-append ks k)

  roll_back-holds :
      DeletesAll client holds
      → (ks : List Kind) (w : W)
      → holds (roll_back client x ks w) j n ≡ (not (covered ks) && holds w j n)
  unfolding roll_back
  roll_back-holds reliable [] w = refl
  roll_back-holds reliable (k ∷ ks) w = ground (
    arith,
    delete-holds client holds law j n reliable k (resource_name k x) w,
    roll_back-holds reliable ks (client.delete k (resource_name k x) w).1,
  )

  -- The kinds that are created when the loop ends
  abbrev made : List Kind → List Resource → List Kind
  made created [] = created
  made created (r ∷ rs) = made (created ++ resource_gvr r.kind ∷ []) rs

  -- A cluster in which exactly the objects of `ks` have been added to `w₀`
  abbrev pub Added : W → List Kind → W → Type 0
  Added w0 ks w =
      (holds w j n ≡ (covered ks || holds w0 j n)) × ((covered ks && holds w0 j n) ≡ false)

  abbrev pub Created : W → List Kind → Option String × W → Type 0
  Created w0 ks r =
      ((e : String) × (r.0 ≡ some e) × (holds r.1 j n ≡ holds w0 j n))
      ⊎ ((r.0 ≡ none) × Added w0 ks r.1)

  abbrev IsNamed : Resource → Type 0
  IsNamed r = r.name ≡ resource_name (resource_gvr r.kind) x

  create-Added :
      (w0 : W) (r : Resource) (ks : List Kind) (w : W)
      → IsNamed r
      → Added w0 ks w
      → (client.create (resource_gvr r.kind) r w).0 ≡ none
      → Added w0 (ks ++ resource_gvr r.kind ∷ []) (client.create (resource_gvr r.kind) r w).1
  create-Added w0 r ks w named (view, fresh) added =
      let g = resource_gvr r.kind in
      let free = held_elsewhere client holds law j n g r.name w (law.was_free g r w added) in
      let more = law.adds g r w j n added in
      let same : hits g (resource_name g x) j n ≡ hits g r.name j n =
        λ i. hits g (sym named i) j n in
      (
        ground (arith, view, more, covered-append ks g, same),
        ground (arith, view, fresh, free, covered-append ks g, same),
      )

  create_all-next :
      (r : Resource) (rs : List Resource) (created : List Kind) (w : W)
      → (client.create (resource_gvr r.kind) r w).0 ≡ none
      → create_all client x (r ∷ rs) created w
        ≡ create_all client x rs
            (created ++ resource_gvr r.kind ∷ [])
            (client.create (resource_gvr r.kind) r w).1
  unfolding create_all
  create_all-next r rs created w h = ground arith

  create_all-refused :
      (r : Resource) (rs : List Resource) (created : List Kind) (w : W) (e : ApiError)
      → (client.create (resource_gvr r.kind) r w).0 ≡ some e
      → create_all client x (r ∷ rs) created w ≡ (
        some (create_error r e),
        roll_back client x created (client.create (resource_gvr r.kind) r w).1,
      )
  unfolding create_all
  create_all-refused r rs created w e h = ground arith

  create_all-Created :
      DeletesAll client holds
      → (w0 : W) (rs : List Resource) (created : List Kind) (w : W) → All IsNamed rs
      → Added w0 created w
      → Created w0 (made created rs) (create_all client x rs created w)
  create_all-Created reliable w0 [] created w named added = unfold create_all in inr (refl, added)
  create_all-Created reliable w0 (r ∷ rs) created w (mine, named) (view, fresh) =
      let g = resource_gvr r.kind in
      elim (Option-cases (client.create g r w).0) [
        | inr (e, refused) ↦
            let w' = (client.create g r w).1 in
            let back = roll_back-holds reliable created w' in
            let same = law.keeps g r w e j n refused in
            subst (Created w0 (made created (r ∷ rs)))
              (sym (create_all-refused r rs created w e refused))
              (inl (create_error r e, refl, ground (arith, back, same, view, fresh)))
        | inl fine ↦
            subst (Created w0 (made created (r ∷ rs))) (sym (create_all-next r rs created w fine)) (
              create_all-Created reliable w0 rs (created ++ g ∷ []) (client.create g r w).1 named
                (create-Added w0 r created w mine (view, fresh) fine))
      ]

  pub covered-belongs : covered (volume_claims ∷ deployments ∷ services ∷ []) ≡ belongs x j n
  unfolding resource_name
  covered-belongs = covered_kinds j
    where
      covered_kinds :
          (k : Kind)
          → any (λ g. hits g (resource_name g x) k n) (volume_claims ∷ deployments ∷ services ∷ [])
            ≡ belongs x k n
      covered_kinds deployments = ground arith
      covered_kinds services = ground arith
      covered_kinds volume_claims = ground arith

module _ {W : Type 0} (client : Client W) (holds : W → Kind → String → Bool)
    (law : IsLawful client holds) (reliable : DeletesAll client holds) where
  pub apply-Created :
      (p : Settings) (x : Session) (w : W) (j : Kind) (n : String)
      → Created client holds law x j n w
          (volume_claims ∷ deployments ∷ services ∷ [])
          (apply client p x w)
  unfolding apply resources volume_claim deployment service resource_gvr resource_name
  apply-Created p x w j n =
      create_all-Created client holds law x j n reliable w (resources p x) [] w
        (refl, (refl, (refl, tt))) (refl, refl)

  -- Apply answers an error and leaves the objects of the cluster as they were, or it succeeds and
  -- adds exactly the claim, the deployment and the service of the session, none of which was there
  -- before; so long as the API server deletes each object that is there.
  pub apply_all_or_nothing :
      (p : Settings) (x : Session) (w : W)
      → let r = apply client p x w in
        ((e : String) × (r.0 ≡ some e) × ((j : Kind) (n : String) → holds r.1 j n ≡ holds w j n))
        ⊎ ((r.0 ≡ none)
            × ((j : Kind) (n : String)
                → (holds r.1 j n ≡ (belongs x j n || holds w j n))
                  × ((belongs x j n && holds w j n) ≡ false)))
  apply_all_or_nothing p x w = elim (Option-cases (apply client p x w).0) [
    | inr (e, refused) ↦ inl (
      e,
      refused,
      λ j n. elim (apply-Created p x w j n) [
        | inl (e', _, same) ↦ same
        | inr (fine, _) ↦ absurd (ground arith)
      ],
    )
    | inl fine ↦ inr (
      fine,
      λ j n. elim (apply-Created p x w j n) [
        | inl (e', refused, _) ↦ absurd (ground arith)
        | inr (_, (view, fresh)) ↦
            let c = covered-belongs client holds law x j n in
            (ground (arith, c, view), ground (arith, c, fresh))
      ],
    )
  ]
