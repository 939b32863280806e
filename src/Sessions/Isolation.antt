-- ===== src/Sessions/Isolation.antt =====
-- The workspaces of two active sessions are set to different ROS domains.
use Prim.Native.Char.{code}
use ldndrc.Base.{
  ℕ, zero, suc, ◌+◌, ◌-◌, ◌*◌, ◌<◌, ◌≤◌, ◌≡◌, ◌≢◌, refl, ap, sym, ◌∙◌, String, Bool, true, false,
  Bool-cases, inl, inr, subst, Option, none, some, ◌==◌, ==_iff, pos, itoa, arith, str_eq,
  if◌then◌else◌,
}
use ldndrc.Base.Map.{lookup}
use ldndrc.Base.Json.{Json, string, array, Items, nil, item, member, first}
use ldndrc.Sessions.Types.{Session, Store}
use ldndrc.Sessions.Domain.{is_active, max_domain}
use ldndrc.Sessions.Load.{new_store}
use ldndrc.Sessions.Sections.{Reach}
use ldndrc.Sessions.Lifecycle.{active_sessions_apart}
use ldndrc.Sessions.Manifests.{Settings, Resource, deployment, pod_spec, container, container_env}

-- The number that decimal digits stand for
decimal_value : ℕ → String → ℕ
decimal_value acc String.[] = acc
decimal_value acc (String.◌∷◌ c s) = decimal_value (acc * 10 + (code c - b'0')) s

-- The numbers under a bound are read back from their decimal digits.
reads_back : ℕ → Bool
reads_back zero = true
reads_back (suc n) = if decimal_value 0 (itoa (pos n)) == n then reads_back n else false

reads_back-decimal_value :
    (bound d : ℕ) → d < bound → reads_back bound ≡ true → decimal_value 0 (itoa (pos d)) ≡ d
unfolding reads_back
reads_back-decimal_value zero d below table = absurd (omega arith)
reads_back-decimal_value (suc n) d below table = elim (Bool-cases (d == n)) [
  | inl last ↦
      let same : d ≡ n = (==_iff d n).0 last in
      let good : decimal_value 0 (itoa (pos n)) ≡ n =
        (==_iff (decimal_value 0 (itoa (pos n))) n).0 (ground arith) in
      subst (λ m. decimal_value 0 (itoa (pos m)) ≡ m) (sym same) good
  | inr before ↦
      let less : d < n = grind (arith, ==_iff d n) in
      reads_back-decimal_value n d less (ground arith)
]

domain_table : reads_back 233 ≡ true
unfolding reads_back decimal_value itoa
domain_table = refl

decimal_value-itoa : (d : ℕ) → d ≤ max_domain → decimal_value 0 (itoa (pos d)) ≡ d
decimal_value-itoa d h = reads_back-decimal_value 233 d (omega arith) domain_table

abbrev is_string : String → Option Json → Bool
is_string s (some (string t)) = str_eq t s
is_string s _ = false

abbrev variable_among : String → Items → Option Json
variable_among name nil = none
variable_among name (item v vs) =
    if is_string name (member "name" (some v))
    then member "value" (some v)
    else variable_among name vs

-- The value of a variable in the environment of a container
abbrev pub variable_in : String → Option Json → Option Json
variable_in name (some (array vs)) = variable_among name vs
variable_in name _ = none

-- The ROS domain of the workspace that a deployment starts
abbrev pub ros_domain : Resource → Option Json
ros_domain r =
    let pod = member "spec" (member "template" (some r.spec)) in
    variable_in "ROS_DOMAIN_ID" (member "env" (first (member "containers" pod)))

ros_domain-deployment :
    (p : Settings) (x : Session)
    → ros_domain (deployment p x) ≡ some (string (itoa (pos x.ros_domain_id)))
unfolding deployment pod_spec container container_env
ros_domain-deployment p x = refl

abbrev text_of : Option Json → String
text_of (some (string s)) = s
text_of _ = ""

-- In every store that locked sections reach from the empty one, where new sessions draw IDs that are
-- not in use, the deployments of two different active sessions, even of one user, start workspaces
-- with different values of ROS_DOMAIN_ID.
pub separate_domains :
    (p : Settings) {t : Store} (i j : String) (x y : Session)
    → Reach new_store t
    → lookup i t.sessions ≡ some x
    → lookup j t.sessions ≡ some y
    → is_active x.status ≡ true
    → is_active y.status ≡ true
    → i ≢ j
    → ros_domain (deployment p x) ≢ ros_domain (deployment p y)
separate_domains p i j x y r hx hy ax ay apart same =
    let (_, isolated, _, high) = active_sessions_apart i j x y r hx hy ax ay in
    let (_, _, _, high') = active_sessions_apart j i y x r hy hx ay ax in
    let texts : itoa (pos x.ros_domain_id) ≡ itoa (pos y.ros_domain_id) =
      ap text_of (sym (ros_domain-deployment p x) ∙ same ∙ ros_domain-deployment p y) in
    apart (
      isolated (
        sym (decimal_value-itoa x.ros_domain_id high)
        ∙ ap (decimal_value 0) texts
        ∙ decimal_value-itoa y.ros_domain_id high'))
