-- ===== src/Join/Examples.antt =====
-- The onboarding program at work on one laptop.
use ldndrc.Base.{◌≡◌, ◌⊎◌, refl, none, true, false, not, ◌&&◌, List, [], ◌∷◌, pos, ne_of_str_eq}
use ldndrc.Base.Float.{of_int}
use ldndrc.Join.Hardware.{Hardware, Fixed, host, default_thresholds, qualify}
use ldndrc.Join.Discover.{discover_master}
use ldndrc.Join.Checks.{check_rows}
use ldndrc.Join.Gate.{is_host, locked, of_int-ne-nan, locked-qualify}
use ldndrc.Join.Model.{Msg, key_msg, step_msg, Launch, Host, judged, run_tui, run_app}
use ldndrc.Join.Checks.{CheckRow}
use ldndrc.Join.Gate.{is_red}
use ldndrc.Join.View.{Styles, get_elem?, view, after}
use ldndrc.Join.Drawing.{is_fix, view_never_panics}
use ldndrc.Base.{String, some}
use ldndrc.Join.Consent.{may_install, tui_consents}

-- A stand-in for printing a float
abbrev pub fixed : Fixed
fixed digits x = "32"

abbrev pub laptop : Hardware
laptop = record {
  os = "linux";
  cpu = pos 16;
  ram_gb = of_int 32;
  gpu = "RTX 4060";
  driver_major = pos 550;
  disk_free_gb = of_int 80;
  has_sudo = true;
  master_online = true;
}

locked-qualify_example :
    locked (check_rows fixed laptop "10.0.0.9" laptop.master_online)
    ≡ not (is_host (qualify fixed laptop default_thresholds).0)
locked-qualify_example =
    locked-qualify fixed laptop "10.0.0.9" (of_int-ne-nan 32) (of_int-ne-nan 80)
      (λ e. absurd (ne_of_str_eq "10.0.0.9" "" refl e))

abbrev pub here : Host
here = record {
  detected = laptop;
  master = discover_master "" "10.0.0.9" (pos 8082) none;
  probed = true;
  toolkit_present = false;
  test_gpu = "";
}

abbrev keys : List Msg
keys = key_msg "j" ∷ key_msg "y" ∷ step_msg "installing the toolkit" ∷ key_msg "q" ∷ []

tui_consents_example :
    (run_app (run_tui fixed here) keys ≡ [])
    ⊎ ((l : Launch) × (run_app (run_tui fixed here) keys ≡ l ∷ [])
        × ((qualify fixed (judged here) default_thresholds).0 ≡ host)
        × ((l.need_toolkit && not (may_install here keys)) ≡ false))
tui_consents_example = tui_consents fixed here keys (of_int-ne-nan 32) (of_int-ne-nan 80)

abbrev plain_styles : Styles
plain_styles = record { title = λ s. s; green = λ s. s; amber = λ s. s; red = λ s. s; dim = λ s. s }

abbrev unready : Host
unready = record here { detected = record laptop { has_sudo = false } }

view_never_panics_example :
    let m = after (run_tui fixed unready).m (key_msg "enter" ∷ []) in
    ((text : String) × (view plain_styles m ≡ some text))
    × ((is_fix m.screen ≡ false)
        ⊎ ((r : CheckRow) × (get_elem? m.rows m.fix_index ≡ some r) × (is_red r.state ≡ true)))
view_never_panics_example = view_never_panics plain_styles fixed unready (key_msg "enter" ∷ [])
