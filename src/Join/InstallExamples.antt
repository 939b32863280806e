-- ===== src/Join/InstallExamples.antt =====
-- The installers at work.
use ldndrc.Base.{
  ◌≡◌, refl, String, Bool, true, not, ◌&&◌, ◌||◌, none, some, [], ◌∷◌, ◌++◌, ok, err, str_eq,
  if◌then◌else◌,
}
use ldndrc.Join.Runner.{run_join}
use ldndrc.Join.Install.{Machine, cut_prefix, distro_among, trim_left, trim_right}
use ldndrc.Join.Redaction.{RunsAlike, installing, token_redacted}
use ldndrc.Join.RunExamples.{Clock, world, cfg, idle, other, other-empty, other_poll}

debian : distro_among ("NAME=Arch" ∷ "ID=\"debian\"" ∷ []) ≡ "debian"
unfolding distro_among cut_prefix trim_left trim_right
debian = refl

-- A machine that writes down the commands that it runs.
abbrev machine : Machine Clock
machine = record {
  look_path = λ s w. (none, w);
  read_file = λ s w. (ok "", w);
  run = λ cmd env w. (none, record w { runs = true; written = w.written ++ cmd });
  download = λ u w. (ok "#!/bin/sh", w);
  create_temp = λ p w. (ok "/tmp/k3s-install-1.sh", w);
  copy = λ b t w. (none, w);
  close = λ t w. (none, w);
  remove = λ t w. (none, w);
}

machine-RunsAlike : RunsAlike machine.run machine.run other
machine-RunsAlike = record { plain = λ cmd w. refl; joining = λ cmd url token w. refl }

token_redacted_example :
    run_join (installing (record world { poll = other_poll }) machine) cfg 4 idle
    ≡ run_join (installing world machine) cfg 4 idle
token_redacted_example =
    token_redacted world machine cfg other other_poll machine.run 4 idle other-empty (λ id w. refl)
      machine-RunsAlike

-- A machine whose state are its files, and on which the installer fails
abbrev tmp : String
tmp = "/tmp/k3s-install-1.sh"

abbrev Files : Type 0
Files = String → Bool

abbrev failing : Machine Files
failing = record {
  look_path = λ s w. (none, w);
  read_file = λ s w. (ok "", w);
  run = λ cmd env w. (some "exit status 1", w);
  download = λ u w. (ok "#!/bin/sh", w);
  create_temp = λ p w. if w tmp then (err "file exists", w) else (ok tmp, λ n. str_eq tmp n || w n);
  copy = λ b t w. (none, w);
  close = λ t w. (none, w);
  remove = λ t w. (none, λ n. not (str_eq t n) && w n);
}

abbrev holds : Files → String → Bool
holds w n = w n
