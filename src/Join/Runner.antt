-- ===== src/Join/Runner.antt =====
-- RunJoin of control-panel/internal/join/runner.go, in the order of its steps.
use ldndrc.Base.{
  ℕ, ◌==◌, ◌*◌, String, Bool, true, not, ◌||◌, Option, none, some, List, [], ◌∷◌, ◌++◌, Result, ok,
  err, concat, str_eq, if◌then◌else◌,
}
use ldndrc.Join.Discover.{addr}
use ldndrc.Join.Engine.{
  Fingerprint, PollResult, Bundle, World, RunConfig, render, register_result, wait_approval,
  wait_joined, write_local, maybe_upload,
}

-- What follows a wait, which may lack fuel
abbrev pub and_then {ℓ κ} : {A : Type ℓ} {B : Type κ} → Option A → (A → Option B) → Option B
and_then none k = none
and_then (some a) k = k a

-- What RunJoin returns: the message, and the error if there is one
pub record Ending : Type 0 where
  pub message : String
  pub failure : Option String

abbrev pub fingerprint_of : RunConfig → Fingerprint
fingerprint_of cfg = record {
  hostname = cfg.hostname;
  os = cfg.os;
  arch = cfg.arch;
  cpu = cfg.hw.cpu;
  ram_gb = cfg.hw.ram_gb;
  gpu = cfg.hw.gpu;
  join_key = cfg.join_key;
}

-- cfg.Timeout in nanoseconds, by default 15 minutes
abbrev pub timeout_of : RunConfig → ℕ
timeout_of cfg = if cfg.timeout == 0 then 15 * 60 * 1000000000 else cfg.timeout

abbrev bundle_of : RunConfig → List String → Bundle
bundle_of cfg steps = record { hostname = cfg.hostname; os = cfg.os; checks = []; steps = steps }

-- The tokens' part of an approved answer is complete.
abbrev pub is_payload : PollResult → Bool
is_payload res = not (str_eq res.k3s_token "" || str_eq res.k3s_url "" || str_eq res.node_name "")

abbrev pub no_payload : String
no_payload = "approved but no token payload (is K3S_JOIN_URL set on the master?)"

abbrev pub denial : String → String
denial reason =
    if not (str_eq reason "")
    then concat ("operator denied the request: " ∷ reason ∷ [])
    else "operator denied the request"

-- The format of the message, which the text on the upload is a part of
abbrev joined_format : String → String
joined_format uploaded = concat (
    "joined! This laptop is now a cluster Host (node ldndrc-%s)." ∷ uploaded
    ∷ " Leave anytime with k3s-uninstall.sh." ∷ [])

-- What doneWithBundle says of the upload
abbrev upload_note : String → Option String → String
upload_note path none = " diagnostics uploaded."
upload_note path (some e) =
    concat (" diagnostics kept locally (" ∷ path ∷ ") — upload failed, share it manually." ∷ [])

module _ {W : Type 0} (io : World W) (cfg : RunConfig) where
  -- failWithBundle
  unfoldable pub fail_with_bundle : String → List String → W → Ending × W
  fail_with_bundle e steps w =
      let (written, w') = write_local io cfg.bundle_dir (bundle_of cfg steps) w in
      elim written [
        | ok path ↦ (
          record {
            message = concat ("failed: " ∷ e ∷ " diagnostics: " ∷ path ∷ []);
            failure = some e;
          },
          w',
        )
        | err _ ↦ (record { message = concat ("failed: " ∷ e ∷ []); failure = some e }, w')
      ]

  -- doneWithBundle
  unfoldable pub done_with_bundle : String → List String → Bool → W → Ending × W
  done_with_bundle id steps network_healthy w =
      let bundle = bundle_of cfg steps in
      let (written, w1) = write_local io cfg.bundle_dir bundle w in
      elim written [
        | err _ ↦ (record { message = io.sprintf (joined_format "") id; failure = none }, w1)
        | ok path ↦
            let (time, w2) = io.rfc3339 w1 in
            let (failed, w3) = maybe_upload io id (render time bundle) network_healthy w2 in
            (
              record {
                message = io.sprintf (joined_format (upload_note path failed)) id;
                failure = none;
              },
              w3,
            )
      ]

  -- The end of RunJoin, on what WaitJoined found
  unfoldable pub confirmed : String → List String → Option PollResult → W → Ending × W
  confirmed id steps none w =
      fail_with_bundle "join confirm timed out" (steps ++ "join confirm timed out" ∷ []) w
  confirmed id steps (some res) w = done_with_bundle id (steps ++ "joined" ∷ []) true w

  -- Behind the agent's installation
  unfoldable pub confirm : ℕ → String → List String → W → Option (Ending × W)
  confirm fuel id steps w =
      let steps = steps ++ "agent installed, waiting for Ready + label" ∷ [] in
      let w0 = io.emit "agent installed, waiting for the master to confirm Ready + label" w in
      and_then (wait_joined io id (timeout_of cfg) fuel w0) (λ r. some (confirmed id steps r.0 r.1))

  -- Behind the agent's installation, by its error
  unfoldable pub agent_done : ℕ → String → List String → Option String → W → Option (Ending × W)
  agent_done fuel id steps (some e) w =
      some (fail_with_bundle e (steps ++ concat ("agent install: " ∷ e ∷ []) ∷ []) w)
  agent_done fuel id steps none w = confirm fuel id steps w

  -- The agent
  unfoldable pub install_agent : ℕ → String → PollResult → List String → W → Option (Ending × W)
  install_agent fuel id res steps w =
      let w0 = io.emit (concat ("installing k3s agent as " ∷ res.node_name ∷ [])) w in
      let (failed, w') = io.agent res.k3s_url res.k3s_token res.node_name w0 in
      agent_done fuel id steps failed w'

  -- Behind the toolkit's installation, by its error
  unfoldable pub toolkit_done :
      ℕ → String → PollResult → List String → Option String → W → Option (Ending × W)
  toolkit_done fuel id res steps (some e) w =
      some (fail_with_bundle e (steps ++ concat ("toolkit install: " ∷ e ∷ []) ∷ []) w)
  toolkit_done fuel id res steps none w =
      install_agent fuel id res (steps ++ "toolkit installed" ∷ []) w

  -- The toolkit, if it is wanted
  unfoldable pub install_toolkit : ℕ → String → PollResult → List String → W → Option (Ending × W)
  install_toolkit fuel id res steps w =
      if cfg.need_toolkit
      then (let (failed, w') =
            io.toolkit (io.emit "installing NVIDIA container toolkit (consented)" w) in
          toolkit_done fuel id res steps failed w')
      else if not (str_eq cfg.skip_note "")
      then install_agent fuel id res (steps ++ "toolkit skipped" ∷ [])
          (io.emit (concat ("toolkit skipped (" ∷ cfg.skip_note ∷ ")" ∷ [])) w)
      else install_agent fuel id res steps w

  -- The steps until the approval
  abbrev pub approved_steps : String → List String
  approved_steps id = concat ("registered as " ∷ id ∷ []) ∷ "approved" ∷ []

  -- Behind WaitApproval
  unfoldable pub answered : ℕ → String → PollResult → W → Option (Ending × W)
  answered fuel id res w =
      let steps = approved_steps id in
      if str_eq res.status "denied"
      then some (fail_with_bundle (denial res.reason) (steps ++ denial res.reason ∷ []) w)
      else if str_eq res.status "joined"
      then some (done_with_bundle id (steps ++ "already joined" ∷ []) true w)
      else if not (is_payload res)
      then some (fail_with_bundle no_payload (steps ++ no_payload ∷ []) w)
      else install_toolkit fuel id res
          (steps ++ "short-lived token received (memory only, never shown)" ∷ []) w

  -- Behind WaitApproval, on what it found
  unfoldable pub awaited : ℕ → String → Option PollResult → W → Option (Ending × W)
  awaited fuel id none w = some (
      fail_with_bundle "approval wait timed out"
        (concat ("registered as " ∷ id ∷ []) ∷ "approval wait: approval wait timed out" ∷ []) w)
  awaited fuel id (some res) w = answered fuel id res w

  -- The approval wait
  unfoldable pub registered : ℕ → String → W → Option (Ending × W)
  registered fuel id w =
      let w0 =
        io.emit
          (concat
            ("waiting for operator approval at " ∷ cfg.control_url ∷ " (polling every 5s)" ∷ []))
          (io.emit (concat ("registered as " ∷ id ∷ [])) w) in
      and_then (wait_approval io id (timeout_of cfg) fuel w0) (λ r. awaited fuel id r.0 r.1)

  -- Behind Register, by its result
  unfoldable pub register_done : ℕ → Result String String → W → Option (Ending × W)
  register_done fuel (err e) w =
      some (fail_with_bundle e (concat ("register failed: " ∷ e ∷ []) ∷ []) w)
  register_done fuel (ok id) w = registered fuel id w

  -- RunJoin
  unfoldable pub run_join : ℕ → W → Option (Ending × W)
  run_join fuel w =
      let w0 = io.emit (concat ("registering with master " ∷ addr cfg.master ∷ [])) w in
      let (reply, w') = io.register (fingerprint_of cfg) w0 in
      register_done fuel (register_result reply) w'
