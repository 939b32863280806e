-- ===== src/Join/ProgramExamples.antt =====
-- The whole program at work: the user says no to the toolkit.
use ldndrc.Base.{◌≡◌, refl, String, Option, some, List, [], ◌∷◌, false}
use ldndrc.Join.Gate.{of_int-ne-nan}
use ldndrc.Join.Model.{Msg, key_msg, run_tui, run_app}
use ldndrc.Join.Consent.{may_install}
use ldndrc.Join.Program.{Process, config_of, run_engines, no_consent_no_toolkit}
use ldndrc.Join.Examples.{here, fixed}
use ldndrc.Join.RunExamples.{Clock, world, idle}

abbrev process : Process
process = record {
  hostname = "legion";
  os = "linux";
  arch = "amd64";
  join_key = "";
  temp_dir = "/tmp";
}

abbrev refusal : List Msg
refusal = key_msg "j" ∷ key_msg "n" ∷ []

-- An installer of the toolkit that fails
abbrev broken : Clock → Option String × Clock
broken w = (some "no apt", w)

unwilling : may_install here refusal ≡ false
unfolding may_install
unwilling = refl

no_consent_no_toolkit_example :
    run_engines
      (record world { toolkit = broken })
      (config_of process fixed here)
      (run_app (run_tui fixed here) refusal)
      4
      idle
    ≡ run_engines world (config_of process fixed here) (run_app (run_tui fixed here) refusal) 4 idle
no_consent_no_toolkit_example =
    no_consent_no_toolkit world process fixed here refusal broken 4 idle (of_int-ne-nan 32)
      (of_int-ne-nan 80) unwilling
