-- ===== src/Sessions/Cluster.antt =====
-- The provisioner of control-panel/internal/sessions/kubernetes.go. The API server is a parameter.
use ldndrc.Base.{
  String, Bool, true, false, not, Option, none, some, List, [], ◌∷◌, ◌++◌, Result, ok, err, ℤ, pos,
  lt_int, concat, if◌then◌else◌,
}
use ldndrc.Base.Json.{Json}
use ldndrc.Sessions.Types.{Session, Provisioner}
use ldndrc.Sessions.Manifests.{
  Settings, Kind, deployments, services, volume_claims, Resource, resource_gvr, resource_name,
  resources,
}

-- An error of the API server: whether apierrors.IsNotFound recognises it, and its text
pub data ApiError : Type 0 where
  not_found failed : String → ApiError

abbrev pub is_not_found : ApiError → Bool
is_not_found (not_found e) = true
is_not_found (failed e) = false

abbrev pub api_text : ApiError → String
api_text (not_found e) = e
api_text (failed e) = e

-- The dynamic client in the provisioner's namespace, over a cluster state, and
-- unstructured.NestedInt64 at status.availableReplicas
pub record Client (W : Type 0) : Type 0 where
  pub create : Kind → Resource → W → Option ApiError × W
  pub delete : Kind → String → W → Option ApiError × W
  pub get : Kind → String → W → Result ApiError Json × W
  pub available_replicas : Json → Result String (Option ℤ)

-- gvr.Resource
abbrev pub kind_text : Kind → String
kind_text deployments = "deployments"
kind_text services = "services"
kind_text volume_claims = "persistentvolumeclaims"

abbrev pub create_error : Resource → ApiError → String
create_error r e = concat ("create " ∷ r.kind ∷ " " ∷ r.name ∷ ": " ∷ api_text e ∷ [])

abbrev pub delete_error : Kind → String → ApiError → String
delete_error k name e = concat ("delete " ∷ kind_text k ∷ " " ∷ name ∷ ": " ∷ api_text e ∷ [])

module _ {W : Type 0} (client : Client W) where
  -- The loop over `created` behind a failed Create; its errors are dropped.
  unfoldable pub roll_back : Session → List Kind → W → W
  roll_back x [] w = w
  roll_back x (k ∷ ks) w = roll_back x ks (client.delete k (resource_name k x) w).1

  -- The loop of Apply over the resources
  unfoldable pub create_all : Session → List Resource → List Kind → W → Option String × W
  create_all x [] created w = (none, w)
  create_all x (r ∷ rs) created w =
      let gvr = resource_gvr r.kind in
      let (refused, w') = client.create gvr r w in
      elim refused [
        | some e ↦ (some (create_error r e), roll_back x created w')
        | none ↦ create_all x rs (created ++ gvr ∷ []) w'
      ]

  -- Apply
  unfoldable pub apply : Settings → Session → W → Option String × W
  apply p x w = create_all x (resources p x) [] w

  -- err != nil && !apierrors.IsNotFound(err)
  abbrev pub is_failure : Option ApiError → Bool
  is_failure none = false
  is_failure (some e) = not (is_not_found e)

  -- The loop of Delete
  unfoldable pub delete_all : List (Kind × String) → W → Option String × W
  delete_all [] w = (none, w)
  delete_all ((k, name) ∷ items) w =
      let (refused, w') = client.delete k name w in
      elim refused [
        | none ↦ delete_all items w'
        | some e ↦
            if not (is_not_found e) then (some (delete_error k name e), w') else delete_all items w'
      ]

  abbrev pub items_of_session : Session → List (Kind × String)
  items_of_session x =
      (deployments, x.workload_name)
      ∷ (services, x.service_name)
      ∷ (volume_claims, concat (x.workload_name ∷ "-home" ∷ []))
      ∷ []

  -- Delete
  unfoldable pub delete : Session → W → Option String × W
  delete x w = delete_all (items_of_session x) w

  -- WorkloadExists
  unfoldable pub workload_exists : Session → W → Bool × W
  workload_exists x w =
      let (r, w') = client.get deployments x.workload_name w in
      elim r [ err e ↦ (not (is_not_found e), w') | ok d ↦ (true, w') ]

  -- found && available > 0
  abbrev pub is_available : Option ℤ → Bool
  is_available none = false
  is_available (some n) = lt_int (pos 0) n

  -- The end of Ready, behind NestedInt64
  abbrev pub ready_result : Result String (Option ℤ) → Result String Bool
  ready_result (err e) = err e
  ready_result (ok n) = ok (is_available n)

  -- Ready
  unfoldable pub ready : Session → W → Result String Bool × W
  ready x w =
      let (r, w') = client.get deployments x.workload_name w in
      elim r [
        | err e ↦ if is_not_found e then (ok false, w') else (err (api_text e), w')
        | ok d ↦ (ready_result (client.available_replicas d), w')
      ]

  -- KubernetesProvisioner as a Provisioner and StatusProvider
  unfoldable pub kubernetes_provisioner : Settings → Provisioner W
  kubernetes_provisioner p = record { apply = apply p; delete = delete; ready = some ready }
