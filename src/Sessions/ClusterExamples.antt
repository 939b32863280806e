-- ===== src/Sessions/ClusterExamples.antt =====
-- The provisioner at work on an API server that has room for everything.
use ldndrc.Base.{
  ◌≡◌, ◌⊎◌, refl, arith, String, Bool, false, not, ◌&&◌, ◌||◌, none, some, ok, err, if◌then◌else◌,
}
use ldndrc.Base.Json.{string}
use ldndrc.Sessions.Manifests.{
  Kind, deployments, resources, volume_claim, deployment, service, resource_gvr,
}
use ldndrc.Sessions.Store.{new_session}
use ldndrc.Sessions.Cluster.{create_all, delete_all, not_found, failed, Client, apply, delete}
use ldndrc.Sessions.ClusterLaws.{hits, belongs, IsLawful, DeletesAll}
use ldndrc.Sessions.Rollback.{apply_all_or_nothing}
use ldndrc.Sessions.Removal.{delete_undoes_apply}
use ldndrc.Sessions.Examples.{alice, pods}

-- Which objects there are
abbrev pub Objects : Type 0
Objects = Kind → String → Bool

abbrev with_object : Kind → String → Objects → Objects
with_object k s w j n = hits k s j n || w j n

abbrev without : Kind → String → Objects → Objects
without k s w j n = not (hits k s j n) && w j n

abbrev pub server : Client Objects
server = record {
  create = λ k r w.
      if w k r.name then (some (failed "already exists"), w) else (none, with_object k r.name w);
  delete = λ k s w. if w k s then (none, without k s w) else (some (not_found "not found"), w);
  get = λ k s w. (if w k s then ok (string s) else err (not_found "not found"), w);
  available_replicas = λ d. ok none;
}

abbrev holds : Objects → Kind → String → Bool
holds w k n = w k n

server-IsLawful : IsLawful server holds
server-IsLawful = record {
  was_free = λ k r w h. ground arith;
  adds = λ k r w j n h. ground arith;
  keeps = λ k r w e j n h. ground arith;
  removes = λ k s w j n h. ground arith;
  refuses = λ k s w e j n h. ground arith;
  absent = λ k s w t h. ground arith;
}

server-DeletesAll : DeletesAll server holds
server-DeletesAll k s w h = ground arith

abbrev pub empty : Objects
empty k n = false

apply_all_or_nothing_example :
    let r = apply server pods alice empty in
    ((e : String) × (r.0 ≡ some e) × ((j : Kind) (n : String) → holds r.1 j n ≡ holds empty j n))
    ⊎ ((r.0 ≡ none)
        × ((j : Kind) (n : String)
            → (holds r.1 j n ≡ (belongs alice j n || holds empty j n))
              × ((belongs alice j n && holds empty j n) ≡ false)))
apply_all_or_nothing_example =
    apply_all_or_nothing server holds server-IsLawful server-DeletesAll pods alice empty

applied : (apply server pods alice empty).0 ≡ none
unfolding apply create_all resources volume_claim deployment service resource_gvr new_session
applied = refl

removed : (delete server alice (apply server pods alice empty).1).0 ≡ none
unfolding apply create_all resources volume_claim deployment service resource_gvr new_session delete
    delete_all
removed = refl

removed_again : (delete server alice empty).0 ≡ none
unfolding new_session delete delete_all
removed_again = refl

delete_undoes_apply_example :
    (holds
        (delete server alice (apply server pods alice empty).1).1
        deployments
        "ros2-session-010203"
      ≡ holds empty deployments "ros2-session-010203")
    × (holds (delete server alice empty).1 deployments "ros2-session-010203" ≡ (
        not (belongs alice deployments "ros2-session-010203")
        && holds empty deployments "ros2-session-010203"))
delete_undoes_apply_example =
    delete_undoes_apply server holds server-IsLawful server-DeletesAll pods alice empty empty
      deployments "ros2-session-010203" applied removed removed_again
