-- ===== src/Sessions/Removal.antt =====
-- Delete of the Kubernetes provisioner removes what Apply made.
use ldndrc.Base.{
  ◌≡◌, ◌≢◌, ◌∙◌, sym, ap, refl, inl, inr, String, Bool, true, false, not, ◌&&◌, Option, none, List,
  [], ◌∷◌, any, arith, Bool-cases, Option-cases,
}
use ldndrc.Sessions.Types.{Session}
use ldndrc.Sessions.Manifests.{Settings, Kind, deployments, services, volume_claims, resource_name}
use ldndrc.Sessions.Cluster.{
  not_found, failed, Client, apply, is_failure, delete_all, items_of_session, delete,
}
use ldndrc.Sessions.ClusterLaws.{hits, belongs, IsLawful, DeletesAll, held_elsewhere}
use ldndrc.Sessions.Rollback.{covered-belongs, apply-Created}

module _ {W : Type 0} (client : Client W) (holds : W → Kind → String → Bool)
    (law : IsLawful client holds) (x : Session) (j : Kind) (n : String) where
  delete-hit :
      (k : Kind) (s : String) (w : W)
      → is_failure client (client.delete k s w).0 ≡ false
      → holds (client.delete k s w).1 j n ≡ (not (hits k s j n) && holds w j n)
  delete-hit k s w h = elim (Option-cases (client.delete k s w).0) [
    | inl gone ↦ law.removes k s w j n gone
    | inr (failed t, refused) ↦ absurd (ground arith)
    | inr (not_found t, refused) ↦
        let same = law.refuses k s w (not_found t) j n refused in
        ground (arith, same, held_elsewhere client holds law j n k s w (law.absent k s w t refused))
  ]

  -- The object is one of those in the list.
  abbrev listed : List (Kind × String) → Bool
  listed items = any (λ i. hits i.0 i.1 j n) items

  delete_all-next :
      (k : Kind) (s : String) (items : List (Kind × String)) (w : W)
      → is_failure client (client.delete k s w).0 ≡ false
      → delete_all client ((k, s) ∷ items) w ≡ delete_all client items (client.delete k s w).1
  unfolding delete_all
  delete_all-next k s items w h = elim (Option-cases (client.delete k s w).0) [
    | inl gone ↦ ground arith
    | inr (e, refused) ↦ ground arith
  ]

  delete_all-stops :
      (k : Kind) (s : String) (items : List (Kind × String)) (w : W)
      → is_failure client (client.delete k s w).0 ≡ true
      → (delete_all client ((k, s) ∷ items) w).0 ≢ none
  unfolding delete_all
  delete_all-stops k s items w h e = ground arith

  delete_all-holds :
      (items : List (Kind × String)) (w : W)
      → (delete_all client items w).0 ≡ none
      → holds (delete_all client items w).1 j n ≡ (not (listed items) && holds w j n)
  delete_all-holds [] w h = unfold delete_all in refl
  delete_all-holds ((k, s) ∷ items) w h =
      elim (Bool-cases (is_failure client (client.delete k s w).0)) [
        | inl bad ↦ absurd (delete_all-stops k s items w bad h)
        | inr fine ↦
            let next = delete_all-next k s items w fine in
            let here = delete-hit k s w fine in
            let rest =
              delete_all-holds items (client.delete k s w).1 (ap (λ r. r.0) (sym next) ∙ h) in
            let view : holds (delete_all client ((k, s) ∷ items) w).1 j n
                ≡ holds (delete_all client items (client.delete k s w).1).1 j n =
              ap (λ (r : Option String × W). holds r.1 j n) next in
            ground (arith, view, rest, here)
      ]

  listed-belongs : listed (items_of_session client x) ≡ belongs x j n
  unfolding resource_name
  listed-belongs = listed_kinds j
    where
      listed_kinds :
          (k : Kind)
          → any (λ (i : Kind × String). hits i.0 i.1 k n) (items_of_session client x)
            ≡ belongs x k n
      listed_kinds deployments = ground arith
      listed_kinds services = ground arith
      listed_kinds volume_claims = ground arith

module _ {W : Type 0} (client : Client W) (holds : W → Kind → String → Bool)
    (law : IsLawful client holds) (reliable : DeletesAll client holds) where
  -- After an Apply that succeeded, a Delete that succeeds leaves exactly the objects that the
  -- cluster had before, and a Delete that succeeds removes the objects of the session in any case.
  pub delete_undoes_apply :
      (p : Settings) (x : Session) (w v : W) (j : Kind) (n : String)
      → (apply client p x w).0 ≡ none
      → (delete client x (apply client p x w).1).0 ≡ none
      → (delete client x v).0 ≡ none
      → (holds (delete client x (apply client p x w).1).1 j n ≡ holds w j n)
        × (holds (delete client x v).1 j n ≡ (not (belongs x j n) && holds v j n))
  unfolding delete
  delete_undoes_apply p x w v j n fine gone gone' =
      let b = listed-belongs client holds law x j n in
      let items = items_of_session client x in
      let after = delete_all-holds client holds law x j n items (apply client p x w).1 gone in
      let after' = delete_all-holds client holds law x j n items v gone' in
      let c = covered-belongs client holds law x j n in
      elim (apply-Created client holds law reliable p x w j n) [
        | inl (e, refused, _) ↦ absurd (ground arith)
        | inr (_, (view, fresh)) ↦
            (ground (arith, b, c, after, view, fresh), ground (arith, b, after'))
      ]
