-- ===== src/Sessions/Manifests.antt =====
-- The Kubernetes objects of a session: resources of control-panel/internal/sessions/kubernetes.go.
use ldndrc.Base.{
  ℕ, String, Bool, true, false, not, ◌&&◌, List, [], ◌∷◌, ◌++◌, pos, itoa, concat, str_eq,
  if◌then◌else◌,
}
use ldndrc.Base.Json.{Json, string, number, boolean, obj, arr}
use ldndrc.Sessions.Types.{Session}

-- KubernetesProvisioner, but for its client
pub record Settings : Type 0 where
  pub namespace : String
  pub image : String
  pub storage_size : String
  pub gpu_limit : String

-- envOr, on the value of the variable
unfoldable pub env_or : String → String → String
env_or value fallback = if not (str_eq value "") then value else fallback

-- What NewKubernetesProvisioner sets, on SESSION_HOME_STORAGE and SESSION_GPU_LIMIT
unfoldable pub provisioner_settings : String → String → String → String → Settings
provisioner_settings namespace image storage gpu = record {
  namespace = namespace;
  image = image;
  storage_size = env_or storage "5Gi";
  gpu_limit = env_or gpu "1";
}

-- The three kinds of objects, deploymentGVR, serviceGVR and pvcGVR
pub data Kind : Type 0 where
  deployments services volume_claims : Kind

-- An unstructured object, by the members at its top and in its metadata
pub record Resource : Type 0 where
  pub api_version : String
  pub kind : String
  pub name : String
  pub namespace : String
  pub labels : Json
  pub spec : Json

-- resourceGVR
unfoldable pub resource_gvr : String → Kind
resource_gvr kind =
    if str_eq kind "PersistentVolumeClaim"
    then volume_claims
    else if str_eq kind "Service"
    then services
    else deployments

-- resourceName
unfoldable pub resource_name : Kind → Session → String
resource_name volume_claims x = concat (x.workload_name ∷ "-home" ∷ [])
resource_name services x = x.service_name
resource_name deployments x = x.workload_name

unfoldable pub labels_of : Session → Json
labels_of x = obj (
    ("app.kubernetes.io/name", string "ldndrc-ros2-session")
    ∷ ("app.kubernetes.io/part-of", string "ldndrc")
    ∷ ("ldndrc/session-id", string x.id)
    ∷ [])

unfoldable pub volume_claim : Settings → Session → Resource
volume_claim p x = record {
  api_version = "v1";
  kind = "PersistentVolumeClaim";
  name = concat (x.workload_name ∷ "-home" ∷ []);
  namespace = p.namespace;
  labels = labels_of x;
  spec = obj (
      ("accessModes", arr (string "ReadWriteOnce" ∷ []))
      ∷ ("resources", obj (("requests", obj (("storage", string p.storage_size) ∷ [])) ∷ []))
      ∷ []);
}

abbrev variable : String → String → Json
variable name value = obj (("name", string name) ∷ ("value", string value) ∷ [])

unfoldable pub container_env : Session → Json
container_env x = arr (
    obj (
      ("name", string "POD_NAME")
      ∷ ("valueFrom", obj (("fieldRef", obj (("fieldPath", string "metadata.name") ∷ [])) ∷ []))
      ∷ [])
    ∷ variable "ROS_DOMAIN_ID" (itoa (pos x.ros_domain_id))
    ∷ variable "ROS_AUTOMATIC_DISCOVERY_RANGE" "LOCALHOST"
    ∷ variable "SELKIES_PORT" "8080"
    ∷ variable "NVIDIA_VISIBLE_DEVICES" "all"
    ∷ variable "NVIDIA_DRIVER_CAPABILITIES" "graphics,utility,compute,video,display"
    ∷ [])

-- p.gpuLimit != "" && p.gpuLimit != "0"
unfoldable pub wants_gpu : Settings → Bool
wants_gpu p = not (str_eq p.gpu_limit "") && not (str_eq p.gpu_limit "0")

-- requests or limits, with the GPU where one is wanted
unfoldable pub quantities : Settings → String → String → Json
quantities p cpu memory =
    let base : List (String × Json) = ("cpu", string cpu) ∷ ("memory", string memory) ∷ [] in
    obj (if wants_gpu p then base ++ ("nvidia.com/gpu", string p.gpu_limit) ∷ [] else base)

abbrev container_port : String → ℕ → Json
container_port name port = obj (("name", string name) ∷ ("containerPort", number port) ∷ [])

abbrev readiness_probe : Json
readiness_probe = obj (
    ("httpGet", obj (("path", string "/") ∷ ("port", string "editor") ∷ []))
    ∷ ("initialDelaySeconds", number 15)
    ∷ ("periodSeconds", number 10)
    ∷ ("timeoutSeconds", number 3)
    ∷ ("failureThreshold", number 3)
    ∷ [])

unfoldable pub container : Settings → Session → Json
container p x = obj (
    ("name", string "ros2")
    ∷ ("image", string p.image)
    ∷ ("imagePullPolicy", string "IfNotPresent")
    ∷ ("env", container_env x)
    ∷ (
      "resources",
      obj (("requests", quantities p "500m" "2Gi") ∷ ("limits", quantities p "2" "4Gi") ∷ []),
    )
    ∷ (
      "ports",
      arr (
          container_port "editor" 7682
          ∷ container_port "desktop" 8080
          ∷ container_port "gzweb" 9002
          ∷ []),
    )
    ∷ ("readinessProbe", readiness_probe)
    ∷ (
      "securityContext",
      obj (
          ("allowPrivilegeEscalation", boolean false)
          ∷ ("capabilities", obj (("drop", arr (string "ALL" ∷ [])) ∷ []))
          ∷ []),
    )
    ∷ (
      "volumeMounts",
      arr (obj (("name", string "home") ∷ ("mountPath", string "/home/student") ∷ []) ∷ []),
    )
    ∷ [])

abbrev pod_security : Json
pod_security = obj (
    ("runAsNonRoot", boolean true)
    ∷ ("runAsUser", number 1000)
    ∷ ("runAsGroup", number 1000)
    ∷ ("fsGroup", number 1000)
    ∷ ("fsGroupChangePolicy", string "OnRootMismatch")
    ∷ ("seccompProfile", obj (("type", string "RuntimeDefault") ∷ []))
    ∷ [])

unfoldable pub pod_spec : Settings → Session → Json
pod_spec p x = obj (
    ("nodeSelector", obj (("node-role.kubernetes.io/role", string "host") ∷ []))
    ∷ ("securityContext", pod_security)
    ∷ ("containers", arr (container p x ∷ []))
    ∷ (
      "volumes",
      arr (
          obj (
            ("name", string "home")
            ∷ (
              "persistentVolumeClaim",
              obj (("claimName", string (concat (x.workload_name ∷ "-home" ∷ []))) ∷ []),
            )
            ∷ [])
          ∷ []),
    )
    ∷ [])

unfoldable pub deployment : Settings → Session → Resource
deployment p x = record {
  api_version = "apps/v1";
  kind = "Deployment";
  name = x.workload_name;
  namespace = p.namespace;
  labels = labels_of x;
  spec = obj (
      ("replicas", number 1)
      ∷ ("selector", obj (("matchLabels", labels_of x) ∷ []))
      ∷ (
        "template",
        obj (("metadata", obj (("labels", labels_of x) ∷ [])) ∷ ("spec", pod_spec p x) ∷ []),
      )
      ∷ []);
}

abbrev service_port : String → ℕ → Json
service_port name port =
    obj (("name", string name) ∷ ("port", number port) ∷ ("targetPort", string name) ∷ [])

unfoldable pub service : Settings → Session → Resource
service p x = record {
  api_version = "v1";
  kind = "Service";
  name = x.service_name;
  namespace = p.namespace;
  labels = labels_of x;
  spec = obj (
      ("type", string "ClusterIP")
      ∷ ("selector", labels_of x)
      ∷ (
        "ports",
        arr (
            service_port "editor" 7682
            ∷ service_port "desktop" 8080
            ∷ service_port "gzweb" 9002
            ∷ []),
      )
      ∷ []);
}

-- resources
unfoldable pub resources : Settings → Session → List Resource
resources p x = volume_claim p x ∷ deployment p x ∷ service p x ∷ []
