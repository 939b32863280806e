-- ===== src/Join/Program.antt =====
-- cmd/join/main.go with the engine: what the keys at the terminal let the installers do.
use ldndrc.Base.{
  ℕ, ◌*◌, ◌≡◌, ◌≢◌, refl, inl, inr, String, false, Option, none, some, List, [], ◌∷◌, ok, err,
  arith, concat,
}
use ldndrc.Base.Float.{nan}
use ldndrc.Join.Hardware.{Fixed}
use ldndrc.Join.Discover.{addr}
use ldndrc.Join.Model.{Msg, Launch, Host, judged, run_tui, run_app}
use ldndrc.Join.Consent.{may_install, tui_consents}
use ldndrc.Join.Engine.{Exchange, PollResult, World, RunConfig}
use ldndrc.Join.Runner.{Ending, and_then, run_join}
use ldndrc.Join.Secrecy.{relabel_exchange, token_unseen}

-- What runTUI reads of the process: os.Hostname, runtime.GOOS and GOARCH, the -join-key flag and
-- os.TempDir
pub record Process : Type 0 where
  pub hostname : String
  pub os : String
  pub arch : String
  pub join_key : String
  pub temp_dir : String

-- The configuration that runTUI builds
unfoldable pub config_of : Process → Fixed → Host → RunConfig
config_of p fixed x = record {
  hostname = p.hostname;
  os = p.os;
  arch = p.arch;
  hw = judged x;
  join_key = p.join_key;
  master = x.master;
  control_url = concat ("http://" ∷ addr x.master ∷ []);
  need_toolkit = (run_tui fixed x).m.need_toolkit;
  skip_note = "";
  timeout = 15 * 60 * 1000000000;
  bundle_dir = p.temp_dir;
}

-- The configuration that appModel starts the engine with
abbrev pub launched : RunConfig → Launch → RunConfig
launched cfg l = record cfg { need_toolkit = l.need_toolkit; skip_note = l.skip_note }

-- What the user is told at the end: the goroutine of appModel's Update
unfoldable pub final_line : Ending → String
final_line e = elim e.failure [ none ↦ e.message | some m ↦ concat ("failed: " ∷ m ∷ []) ]

module _ {W : Type 0} (io : World W) (cfg : RunConfig) where
  -- The engines that a run of the terminal program starts, one after the other
  unfoldable pub run_engines : List Launch → ℕ → W → Option (List String × W)
  run_engines [] fuel w = some ([], w)
  run_engines (l ∷ ls) fuel w =
      and_then (run_join io (launched cfg l) fuel w)
        (λ r. and_then (run_engines ls fuel r.1) (λ rest. some (final_line r.0 ∷ rest.0, rest.1)))

relabel_exchange-same : (r : Exchange PollResult) → r ≡ relabel_exchange (λ t. t) r
relabel_exchange-same (err e) = refl
relabel_exchange-same (ok (code, err e)) = refl
relabel_exchange-same (ok (code, ok res)) = refl

toolkit_unused :
    {W : Type 0} (io : World W) (cfg : RunConfig) (toolkit : W → Option String × W) (fuel : ℕ)
    (w : W)
    → cfg.need_toolkit ≡ false
    → run_join (record io { toolkit = toolkit }) cfg fuel w ≡ run_join io cfg fuel w
toolkit_unused io cfg toolkit fuel w skip =
    token_unseen io cfg (λ t. t) io.poll io.agent toolkit fuel w
      (record {
        keeps_empty = λ t. refl;
        polls = λ id v i. (relabel_exchange-same (io.poll id v).0 i, (io.poll id v).1);
        agents = λ res v full. refl;
        toolkits = λ need. absurd (ground arith);
      })

-- Whatever keys and messages arrive, the whole program, from the terminal to the engine, does the
-- same for every installer of the toolkit, so calls none, unless the laptop has a GPU but no toolkit,
-- TEST_GPU is not set, and a key was the yes. Memory and free disk space are taken to be numbers.
pub no_consent_no_toolkit :
    {W : Type 0} (io : World W) (p : Process) (fixed : Fixed) (x : Host) (msgs : List Msg)
    (toolkit : W → Option String × W) (fuel : ℕ) (w : W)
    → x.detected.ram_gb ≢ nan
    → x.detected.disk_free_gb ≢ nan
    → may_install x msgs ≡ false
    → let launches = run_app (run_tui fixed x) msgs in
      let cfg = config_of p fixed x in
      run_engines (record io { toolkit = toolkit }) cfg launches fuel w
      ≡ run_engines io cfg launches fuel w
unfolding run_engines
no_consent_no_toolkit io p fixed x msgs toolkit fuel w ram disk unwilling =
    elim (tui_consents fixed x msgs ram disk) [
      | inl none_started ↦ rw none_started refl
      | inr (l, one, _, consented) ↦
          let skip : l.need_toolkit ≡ false = ground (arith, consented, unwilling) in
          rw (one, toolkit_unused io (launched (config_of p fixed x) l) toolkit fuel w skip) refl
    ]
