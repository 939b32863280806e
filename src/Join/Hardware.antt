-- ===== src/Join/Hardware.antt =====
-- control-panel/internal/join/hardware.go: which laptops may join as Hosts. Printing a float by
-- fmt's `%.1f` and `%.0f` is a parameter.
use ldndrc.Base.{
  ℕ, String, Bool, true, not, [], ◌∷◌, ℤ, pos, lt_int, itoa, concat, str_eq, if◌then◌else◌,
}
use ldndrc.Base.Float.{Float64, flt, of_int}

pub data Verdict : Type 0 where
  host guest : Verdict

pub record Thresholds : Type 0 where
  pub min_cpu : ℤ
  pub min_ram_gb : Float64
  pub min_driver : ℤ
  pub want_driver : ℤ
  pub min_disk_gb : Float64

-- DefaultThresholds
unfoldable pub default_thresholds : Thresholds
default_thresholds = record {
  min_cpu = pos 8;
  min_ram_gb = of_int 16;
  min_driver = pos 535;
  want_driver = pos 550;
  min_disk_gb = of_int 25;
}

pub record Hardware : Type 0 where
  pub os : String
  pub cpu : ℤ
  pub ram_gb : Float64
  pub gpu : String
  pub driver_major : ℤ
  pub disk_free_gb : Float64
  pub has_sudo : Bool
  pub master_online : Bool

-- fmt's `%.<digits>f`
abbrev pub Fixed : Type 0
Fixed = ℕ → Float64 → String

-- Qualify
unfoldable pub qualify : Fixed → Hardware → Thresholds → Verdict × String
qualify fixed hw th =
    if str_eq hw.os "darwin"
    then (guest, "macOS cannot host K3s or NVIDIA workloads")
    else if lt_int hw.cpu th.min_cpu
    then (guest, concat ("CPU " ∷ itoa hw.cpu ∷ " < " ∷ itoa th.min_cpu ∷ " cores" ∷ []))
    else if flt hw.ram_gb th.min_ram_gb
    then (guest, concat ("RAM " ∷ fixed 1 hw.ram_gb ∷ " < " ∷ fixed 0 th.min_ram_gb ∷ " GB" ∷ []))
    else if str_eq hw.gpu ""
    then (guest, "no NVIDIA GPU detected")
    else if lt_int hw.driver_major th.min_driver
    then (guest, concat ("driver " ∷ itoa hw.driver_major ∷ " < " ∷ itoa th.min_driver ∷ []))
    else if flt hw.disk_free_gb th.min_disk_gb
    then (
      guest,
      concat ("disk " ∷ fixed 1 hw.disk_free_gb ∷ " < " ∷ fixed 0 th.min_disk_gb ∷ " GB free" ∷ []),
    )
    else if not hw.has_sudo
    then (guest, "cannot elevate (agent and toolkit install need sudo)")
    else if not hw.master_online
    then (guest, "master unreachable on TCP 6443")
    else (host, "")

pub data Band : Type 0 where
  green amber red : Band

-- DriverBand
unfoldable pub driver_band : ℤ → ℤ → ℤ → Band
driver_band major floor want =
    if lt_int major floor then red else if lt_int major want then amber else green

-- PlainDetectedLine
unfoldable pub plain_detected_line : Fixed → Hardware → String
plain_detected_line fixed hw = concat (
    "[join-cluster] Detected: CPU="
    ∷ itoa hw.cpu
    ∷ " cores, RAM="
    ∷ fixed 0 hw.ram_gb
    ∷ "GB, GPU="
    ∷ (if not (str_eq hw.gpu "") then "yes" else "no")
    ∷ [])

-- PlainDecisionLine
unfoldable pub plain_decision_line : Verdict → String
plain_decision_line host = "[join-cluster] High-end laptop detected. Joining as HOST."
plain_decision_line guest =
    "[join-cluster] Low-end laptop detected. Do not join cluster. Use browser to access platform."

-- runPlain of cmd/join/main.go, on what Detect answers: the two lines that it prints
unfoldable pub run_plain : Fixed → Hardware → String × String
run_plain fixed detected =
    let th = default_thresholds in
    let hw : Hardware = record detected {
      master_online = true;
      has_sudo = true;
      disk_free_gb = th.min_disk_gb;
    } in
    let (verdict, reason) = qualify fixed hw th in
    (plain_detected_line fixed hw, plain_decision_line verdict)
