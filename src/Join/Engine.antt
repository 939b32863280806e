-- ===== src/Join/Engine.antt =====
-- control-panel/internal/join/runner.go, register.go and diagnostics.go: the join, from the
-- registration to the diagnostics bundle. The control panel over HTTP, the timers, the file system
-- and the two installers are parameters, over a state `W` of the world.
use ldndrc.Base.{
  ℕ, zero, suc, ◌==◌, ℤ, String, Bool, true, false, not, ◌||◌, Option, none, some, List, [], ◌∷◌,
  Result, ok, err, concat, pos, itoa, str_eq, if◌then◌else◌,
}
use ldndrc.Base.Float.{Float64}
use ldndrc.Join.Discover.{Master}
use ldndrc.Join.Hardware.{Hardware}

-- Fingerprint
pub record Fingerprint : Type 0 where
  pub hostname : String
  pub os : String
  pub arch : String
  pub cpu : ℤ
  pub ram_gb : Float64
  pub gpu : String
  pub join_key : String

-- PollResult
pub record PollResult : Type 0 where
  pub status : String
  pub reason : String
  pub k3s_url : String
  pub k3s_token : String
  pub node_name : String

-- Bundle
pub record Bundle : Type 0 where
  pub hostname : String
  pub os : String
  pub checks : List String
  pub steps : List String

-- An HTTP exchange: it fails, or gives a status code and what the body decodes to.
abbrev pub Exchange : Type 0 → Type 0
Exchange A = Result String (ℕ × Result String A)

-- What the engine asks of the world. `start` begins a wait with its timeout, `select` waits for the
-- next tick and answers true if the timeout came instead. The two clocks are the texts of
-- time.Now in the formats of Render and of WriteLocal. `sprintf` is fmt.Sprintf with one argument.
pub record World (W : Type 0) : Type 0 where
  pub register : Fingerprint → W → Exchange String × W
  pub poll : String → W → Exchange PollResult × W
  pub upload : String → String → W → Result String ℕ × W
  pub start : ℕ → W → W
  pub select : W → Bool × W
  pub toolkit : W → Option String × W
  pub agent : String → String → String → W → Option String × W
  pub emit : String → W → W
  pub rfc3339 : W → String × W
  pub file_stamp : W → String × W
  pub join_path : String → String → String
  pub sprintf : String → String → String
  pub write_file : String → String → W → Option String × W

-- RunConfig, but for the functions
pub record RunConfig : Type 0 where
  pub hostname : String
  pub os : String
  pub arch : String
  pub hw : Hardware
  pub join_key : String
  pub master : Master
  pub control_url : String
  pub need_toolkit : Bool
  pub skip_note : String
  pub timeout : ℕ
  pub bundle_dir : String

-- Each line, with the newline behind it
abbrev lines : List String → String
lines [] = ""
lines (l ∷ ls) = concat (l ∷ "\n" ∷ lines ls ∷ [])

-- Render, at a time
unfoldable pub render : String → Bundle → String
render time b = concat (
    "ldndrc diagnostics "
    ∷ time
    ∷ "\nhostname: "
    ∷ b.hostname
    ∷ "\nos: "
    ∷ b.os
    ∷ "\n--- checks ---\n"
    ∷ lines b.checks
    ∷ "--- steps ---\n"
    ∷ lines b.steps
    ∷ [])

-- The end of Register and of Poll, on the code that is wanted and the name of the call
abbrev code_error : String → ℕ → String
code_error name code = concat (name ∷ ": status " ∷ itoa (pos code) ∷ [])

unfoldable pub register_result : Exchange String → Result String String
register_result (err e) = err e
register_result (ok (code, body)) =
    if not (code == 201 || code == 200) then err (code_error "register" code) else body

unfoldable pub poll_result : Exchange PollResult → Result String PollResult
poll_result (err e) = err e
poll_result (ok (code, body)) = if not (code == 200) then err (code_error "poll" code) else body

unfoldable pub upload_result : Result String ℕ → Option String
upload_result (err e) = some e
upload_result (ok code) = if not (code == 201) then some (code_error "upload" code) else none

abbrev pub accepts : (PollResult → Bool) → Result String PollResult → Option PollResult
accepts test (err e) = none
accepts test (ok res) = if test res then some res else none

module _ {W : Type 0} (io : World W) where
  -- The loop of WaitApproval and WaitJoined. Fuel counts the polls; `none` is lack of fuel.
  unfoldable pub wait_loop : (PollResult → Bool) → String → ℕ → W → Option (Option PollResult × W)
  wait_loop test id zero w = none
  wait_loop test id (suc fuel) w =
      let (reply, w1) = io.poll id w in
      let (is_over, w2) = io.select w1 in
      elim (accepts test (poll_result reply)) [
        | some res ↦ some (some res, w1)
        | none ↦ elim is_over [ true ↦ some (none, w2) | false ↦ wait_loop test id fuel w2 ]
      ]

  -- WaitApproval
  unfoldable pub wait_approval : String → ℕ → ℕ → W → Option (Option PollResult × W)
  wait_approval id timeout fuel w =
      wait_loop (λ res. not (str_eq res.status "pending")) id fuel (io.start timeout w)

  -- WaitJoined
  unfoldable pub wait_joined : String → ℕ → ℕ → W → Option (Option PollResult × W)
  wait_joined id timeout fuel w =
      wait_loop (λ res. str_eq res.status "joined") id fuel (io.start timeout w)

  -- WriteLocal
  unfoldable pub write_local : String → Bundle → W → Result String String × W
  write_local dir b w =
      let (stamp, w1) = io.file_stamp w in
      let path = io.join_path dir (concat ("ldndrc-diagnostics-" ∷ stamp ∷ ".txt" ∷ [])) in
      let (time, w2) = io.rfc3339 w1 in
      let (failed, w3) = io.write_file path (render time b) w2 in
      elim failed [ some e ↦ (err e, w3) | none ↦ (ok path, w3) ]

  -- MaybeUpload
  unfoldable pub maybe_upload : String → String → Bool → W → Option String × W
  maybe_upload id bundle network_healthy w =
      if not network_healthy
      then (none, w)
      else (let (reply, w') = io.upload id bundle w in (upload_result reply, w'))
