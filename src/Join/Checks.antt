-- ===== src/Join/Checks.antt =====
-- control-panel/internal/join/checks.go: the pre-flight matrix of the first screen.
use ldndrc.Base.{String, Bool, not, List, [], ◌∷◌, lt_int, itoa, concat, str_eq, if◌then◌else◌}
use ldndrc.Base.Float.{fle}
use ldndrc.Join.Hardware.{
  Thresholds, default_thresholds, Hardware, Fixed, Band, green, amber, red, driver_band,
}

pub record CheckRow : Type 0 where
  pub name : String
  pub state : Band
  pub detail : String

abbrev pub row : String → Band → String → CheckRow
row name state detail = record { name = name; state = state; detail = detail }

unfoldable pub cpu_row : Hardware → Thresholds → CheckRow
cpu_row hw th =
    if not (lt_int hw.cpu th.min_cpu)
    then row "CPU" green (concat (itoa hw.cpu ∷ " cores" ∷ []))
    else row "CPU" red (concat (itoa hw.cpu ∷ " < " ∷ itoa th.min_cpu ∷ " cores → Guest" ∷ []))

unfoldable pub ram_row : Fixed → Hardware → Thresholds → CheckRow
ram_row fixed hw th =
    if fle th.min_ram_gb hw.ram_gb
    then row "RAM" green (concat (fixed 0 hw.ram_gb ∷ " GB" ∷ []))
    else row "RAM" red
        (concat (fixed 1 hw.ram_gb ∷ " < " ∷ fixed 0 th.min_ram_gb ∷ " GB → Guest" ∷ []))

unfoldable pub gpu_row : Hardware → CheckRow
gpu_row hw =
    if not (str_eq hw.gpu "") then row "GPU" green hw.gpu else row "GPU" red "absent → Guest"

unfoldable pub driver_row : Hardware → Thresholds → CheckRow
driver_row hw th = elim (driver_band hw.driver_major th.min_driver th.want_driver) [
  | green ↦ row "Driver" green (concat (itoa hw.driver_major ∷ " (550+ recommended)" ∷ []))
  | amber ↦ row "Driver" amber (concat (itoa hw.driver_major ∷ " works, 550+ recommended" ∷ []))
  | red ↦ row "Driver" red (
      concat (
        itoa hw.driver_major
        ∷ " < "
        ∷ itoa th.min_driver
        ∷ "; lspci proves existence only, nvidia-smi proves the driver works"
        ∷ []))
]

unfoldable pub disk_row : Fixed → Hardware → Thresholds → CheckRow
disk_row fixed hw th =
    if fle th.min_disk_gb hw.disk_free_gb
    then row "Disk" green (concat (fixed 0 hw.disk_free_gb ∷ " GB free" ∷ []))
    else row "Disk" red (
        concat (fixed 1 hw.disk_free_gb ∷ " < " ∷ fixed 0 th.min_disk_gb ∷ " GB free → Guest" ∷ []))

unfoldable pub sudo_row : Hardware → CheckRow
sudo_row hw =
    if hw.has_sudo
    then row "Sudo" green "can elevate"
    else row "Sudo" red "agent + toolkit install need sudo → stop"

unfoldable pub network_row : String → Bool → CheckRow
network_row master_host master_online =
    if str_eq master_host ""
    then row "Master" red "unset: set MASTER_IP (mDNS fills this later) → Join locked"
    else if master_online
    then row "Network" green (concat (master_host ∷ ":6443 reachable" ∷ []))
    else row "Network" red (
        concat (
          master_host
          ∷ ":6443 unreachable (laptop: sudo ufw allow out 6443/tcp; master: sudo ufw allow 6443/tcp)"
          ∷ []))

-- CheckRows
unfoldable pub check_rows : Fixed → Hardware → String → Bool → List CheckRow
check_rows fixed hw master_host master_online =
    let th = default_thresholds in
    if str_eq hw.os "darwin"
    then row "OS" red "macOS: Guest only (no K3s/NVIDIA possible)" ∷ []
    else row "OS" green hw.os
      ∷ cpu_row hw th
      ∷ ram_row fixed hw th
      ∷ gpu_row hw
      ∷ driver_row hw th
      ∷ disk_row fixed hw th
      ∷ sudo_row hw
      ∷ network_row master_host master_online
      ∷ []
