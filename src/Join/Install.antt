-- ===== src/Join/Install.antt =====
-- control-panel/internal/join/install_linux.go. The machine is a parameter: exec, the file system
-- and the download of the K3s installer.
use Prim.Native.String.{slice, len}
use text.Mathlib.Text.{starts_with}
use ldndrc.Base.{
  String, Bool, true, false, ◌||◌, ◌&&◌, Option, none, some, List, [], ◌∷◌, Result, ok, err, concat,
  split, str_eq, if◌then◌else◌,
}

-- The machine, over a state `W`: exec.LookPath, os.ReadFile, a command with what is added to its
-- environment, http.Get, os.CreateTemp, io.Copy into a file, and the file's Close and Remove. An
-- error is its text.
pub record Machine (W : Type 0) : Type 0 where
  pub look_path : String → W → Option String × W
  pub read_file : String → W → Result String String × W
  pub run : List String → List String → W → Option String × W
  pub download : String → W → Result String String × W
  pub create_temp : String → W → Result String String × W
  pub copy : String → String → W → Option String × W
  pub close : String → W → Option String × W
  pub remove : String → W → Option String × W

-- strings.CutPrefix
unfoldable pub cut_prefix : String → String → Option String
cut_prefix line p = if starts_with line p then some (slice line (len p) (len line)) else none

abbrev is_quote : String → Bool
is_quote s = str_eq s "\""

-- strings.Trim with a quotation mark, at the one end and at the other
unfoldable pub trim_left : String → String
trim_left String.[] = ""
trim_left (String.◌∷◌ c s) =
    let rest = trim_left s in if is_quote (String.◌∷◌ c "") then rest else String.◌∷◌ c s

unfoldable pub trim_right : String → String
trim_right String.[] = ""
trim_right (String.◌∷◌ c s) =
    let rest = trim_right s in
    if str_eq rest "" && is_quote (String.◌∷◌ c "") then "" else String.◌∷◌ c rest

-- The loop of distroID over the lines
unfoldable pub distro_among : List String → String
distro_among [] = "unknown distro"
distro_among (l ∷ ls) = elim (cut_prefix l "ID=") [
  | some v ↦ trim_right (trim_left v)
  | none ↦ distro_among ls
]

abbrev words : List String → String
words [] = ""
words (s ∷ []) = s
words (s ∷ ss) = concat (s ∷ " " ∷ words ss ∷ [])

-- The commands of InstallToolkit
unfoldable pub toolkit_steps : List (List String)
toolkit_steps =
    ("sudo" ∷ "apt-get" ∷ "update" ∷ [])
    ∷ ("sudo" ∷ "apt-get" ∷ "install" ∷ "-y" ∷ "nvidia-container-toolkit" ∷ [])
    ∷ ("sudo" ∷ "nvidia-ctk" ∷ "runtime" ∷ "configure" ∷ "--runtime=docker" ∷ [])
    ∷ []

-- control-panel/internal/join/install_other.go: the three functions where the system is not Linux
unfoldable pub toolkit_installer_other : {W : Type 0} → W → Option String × W
toolkit_installer_other w = (some "toolkit install is Linux-only", w)

unfoldable pub agent_installer_other :
    {W : Type 0} → String → String → String → W → Option String × W
agent_installer_other url token name w = (some "agent install is Linux-only", w)

unfoldable pub toolkit_present_other : Bool
toolkit_present_other = false

module _ {W : Type 0} (m : Machine W) where
  -- distroID
  unfoldable pub distro_id : W → String × W
  distro_id w =
      let (data_, w') = m.read_file "/etc/os-release" w in
      elim data_ [
        | err e ↦ ("unknown distro", w')
        | ok text ↦ (distro_among (split b'\n' text), w')
      ]

  -- The loop of InstallToolkit
  unfoldable pub run_steps : List (List String) → W → Option String × W
  run_steps [] w = (none, w)
  run_steps (step ∷ steps) w =
      let (failed, w') = m.run step [] w in
      elim failed [
        | some e ↦ (some (concat ("[" ∷ words step ∷ "]: " ∷ e ∷ [])), w')
        | none ↦ run_steps steps w'
      ]

  -- InstallToolkit
  unfoldable pub toolkit_installer : W → Option String × W
  toolkit_installer w =
      let (missing, w1) = m.look_path "apt-get" w in
      elim missing [
        | none ↦ run_steps toolkit_steps w1
        | some e ↦
            let (distro, w2) = distro_id w1 in
            (
              some (
                  concat (
                    "automatic toolkit install needs Debian/Ubuntu (no apt-get on " ∷ distro
                    ∷ "): install nvidia-container-toolkit manually per NVIDIA docs, then re-run"
                    ∷ [])),
              w2,
            )
      ]

  -- ToolkitPresent
  unfoldable pub toolkit_present : W → Bool × W
  toolkit_present w =
      let (failed, w') = m.run ("nvidia-container-toolkit" ∷ "--version" ∷ []) [] w in
      (elim failed [ none ↦ true | some e ↦ false ], w')

  -- The end of InstallAgent: the installer runs with the URL and the token in its environment.
  unfoldable pub run_installer : String → String → String → String → W → Option String × W
  run_installer url token name tmp w =
      let (failed, w') =
        m.run ("sh" ∷ tmp ∷ "agent" ∷ "--node-name" ∷ name ∷ [])
          (concat ("K3S_URL=" ∷ url ∷ []) ∷ concat ("K3S_TOKEN=" ∷ token ∷ []) ∷ []) w in
      elim failed [
        | some e ↦ (some "k3s agent install failed (token redacted)", w')
        | none ↦ (none, w')
      ]

  -- The part of InstallAgent behind CreateTemp, without the deferred Remove
  unfoldable pub save_and_run : String → String → String → String → String → W → Option String × W
  save_and_run url token name body tmp w =
      let (failed, w1) = m.copy body tmp w in
      let (unclosed, w2) = m.close tmp w1 in
      elim failed [
        | some e ↦ (some (concat ("save k3s installer: " ∷ e ∷ [])), w2)
        | none ↦ elim unclosed [
          | some e ↦ (some e, w2)
          | none ↦ run_installer url token name tmp w2
        ]
      ]

  -- The part of InstallAgent behind the download; the deferred Remove drops its error.
  unfoldable pub with_temp : String → String → String → String → W → Option String × W
  with_temp url token name body w =
      let (made, w1) = m.create_temp "k3s-install-*.sh" w in
      elim made [
        | err e ↦ (some e, w1)
        | ok tmp ↦
            (let (r, w2) = save_and_run url token name body tmp w1 in (r, (m.remove tmp w2).1))
      ]

  -- InstallAgent
  unfoldable pub agent_installer : String → String → String → W → Option String × W
  agent_installer url token name w =
      if str_eq url "" || str_eq token "" || str_eq name ""
      then (some "k3s URL, token and node name are required", w)
      else (let (got, w') = m.download "https://get.k3s.io" w in
          elim got [
            | err e ↦ (some (concat ("download k3s installer: " ∷ e ∷ [])), w')
            | ok body ↦ with_temp url token name body w'
          ])
