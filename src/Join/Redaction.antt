-- ===== src/Join/Redaction.antt =====
-- The token of a run that installs the agent itself: it leaves the program in one place only.
use ldndrc.Base.{
  ℕ, ◌≡◌, refl, inl, inr, String, Option, List, [], ◌∷◌, concat, str_eq, arith, Option-cases,
  Result-cases,
}
use ldndrc.Join.Engine.{World, RunConfig, Exchange, PollResult}
use ldndrc.Join.Runner.{run_join}
use ldndrc.Join.Install.{
  Machine, run_steps, toolkit_installer, toolkit_steps, distro_id, run_installer, save_and_run,
  with_temp, agent_installer,
}
use ldndrc.Join.Secrecy.{relabel_exchange, token_unseen}

-- What InstallAgent adds to the environment of the K3s installer
abbrev pub installer_env : String → String → List String
installer_env url token = concat ("K3S_URL=" ∷ url ∷ []) ∷ concat ("K3S_TOKEN=" ∷ token ∷ []) ∷ []

-- The commands of one machine do with a token in their environment what those of the other do with
-- its replacement.
pub record RunsAlike {W : Type 0} (m m' : List String → List String → W → Option String × W)
    (f : String → String) : Type 0 where
  pub plain : (cmd : List String) (w : W) → m' cmd [] w ≡ m cmd [] w
  pub joining :
      (cmd : List String) (url token : String) (w : W)
      → m' cmd (installer_env url (f token)) w ≡ m cmd (installer_env url token) w

module _ {W : Type 0} (m : Machine W) (run' : List String → List String → W → Option String × W)
    (f : String → String) (alike : RunsAlike m.run run' f) where
  abbrev m' : Machine W
  m' = record m { run = run' }

  run_steps-same : (steps : List (List String)) (w : W) → run_steps m' steps w ≡ run_steps m steps w
  unfolding run_steps
  run_steps-same [] w = refl
  run_steps-same (step ∷ steps) w = elim (Option-cases (m.run step [] w).0) [
    | inl fine ↦ ground (arith, alike.plain step w, fine, run_steps-same steps (m.run step [] w).1)
    | inr (e, failed) ↦ ground (arith, alike.plain step w, failed)
  ]

  toolkit_installer-same : (w : W) → toolkit_installer m' w ≡ toolkit_installer m w
  unfolding toolkit_installer distro_id
  toolkit_installer-same w = elim (Option-cases (m.look_path "apt-get" w).0) [
    | inl found ↦ ground (arith, found, run_steps-same toolkit_steps (m.look_path "apt-get" w).1)
    | inr (e, missing) ↦ ground (arith, missing)
  ]

  save_and_run-same :
      (url token name body tmp : String) (w : W)
      → save_and_run m' url (f token) name body tmp w ≡ save_and_run m url token name body tmp w
  unfolding save_and_run run_installer
  save_and_run-same url token name body tmp w =
      let w1 = (m.copy body tmp w).1 in
      let w2 = (m.close tmp w1).1 in
      elim (Option-cases (m.copy body tmp w).0) [
        | inr (e, failed) ↦ ground (arith, failed)
        | inl saved ↦ elim (Option-cases (m.close tmp w1).0) [
          | inr (e, open_) ↦ ground (arith, saved, open_)
          | inl closed ↦ ground (
            arith,
            saved,
            closed,
            alike.joining ("sh" ∷ tmp ∷ "agent" ∷ "--node-name" ∷ name ∷ []) url token w2,
          )
        ]
      ]

  with_temp-same :
      (url token name body : String) (w : W)
      → with_temp m' url (f token) name body w ≡ with_temp m url token name body w
  unfolding with_temp
  with_temp-same url token name body w =
      elim (Result-cases (m.create_temp "k3s-install-*.sh" w).0) [
        | inr (e, failed) ↦ ground (arith, failed)
        | inl (tmp, made) ↦ ground (
          arith,
          made,
          save_and_run-same url token name body tmp (m.create_temp "k3s-install-*.sh" w).1,
        )
      ]

  agent_installer-same :
      (url token name : String) (w : W)
      → str_eq (f token) "" ≡ str_eq token ""
      → agent_installer m' url (f token) name w ≡ agent_installer m url token name w
  unfolding agent_installer
  agent_installer-same url token name w same =
      rw same (elim (Result-cases (m.download "https://get.k3s.io" w).0) [
        | inr (e, failed) ↦ ground (arith, failed)
        | inl (body, got) ↦
            ground
              (arith, got, with_temp-same url token name body (m.download "https://get.k3s.io" w).1)
      ])

-- The engine with the installers of install_linux.go
abbrev pub installing : {W : Type 0} → World W → Machine W → World W
installing io m = record io { agent = agent_installer m; toolkit = toolkit_installer m }

-- A whole run of the engine with its own installers on two machines is the same, its lines, its
-- files, its upload, its errors and its message included, if the control panel hands out another
-- token, by `f`, and the commands differ in what they do with the token in their environment only.
-- So K3S_TOKEN in the environment of the commands is the one way that the token leaves the program.
pub token_redacted :
    {W : Type 0} (io : World W) (m : Machine W) (cfg : RunConfig) (f : String → String)
    (poll : String → W → Exchange PollResult × W)
    (run' : List String → List String → W → Option String × W) (fuel : ℕ) (w : W)
    → ((t : String) → str_eq (f t) "" ≡ str_eq t "")
    → ((id : String) (v : W) → poll id v ≡ (relabel_exchange f (io.poll id v).0, (io.poll id v).1))
    → RunsAlike m.run run' f
    → run_join (installing (record io { poll = poll }) (record m { run = run' })) cfg fuel w
      ≡ run_join (installing io m) cfg fuel w
token_redacted io m cfg f poll run' fuel w keeps polls alike =
    let n = record m { run = run' } in
    token_unseen (installing io m) cfg f poll (agent_installer n) (toolkit_installer n) fuel w
      (record {
        keeps_empty = keeps;
        polls = polls;
        agents = λ res v full.
            agent_installer-same m run' f alike res.k3s_url res.k3s_token res.node_name v (keeps _);
        toolkits = λ need v. toolkit_installer-same m run' f alike v;
      })
