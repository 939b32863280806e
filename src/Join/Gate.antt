-- ===== src/Join/Gate.antt =====
-- The pre-flight matrix against Qualify: the Join key is locked for exactly the laptops that Qualify
-- turns away.
use ldndrc.Base.{
  ℕ, Bool-cases, inl, inr, eq_iff, ◌≡◌, ◌≢◌, String, Bool, true, false, not, ◌||◌, any, List, arith,
  str_eq, lt_int,
}
use ldndrc.Base.Float.{nan, flt, of_int, fle-not-flt}
use ldndrc.Join.Hardware.{
  Verdict, host, guest, Thresholds, default_thresholds, Hardware, Fixed, Band, red, driver_band,
  qualify,
}
use ldndrc.Join.Checks.{
  CheckRow, cpu_row, ram_row, gpu_row, driver_row, disk_row, sudo_row, network_row, check_rows,
}

abbrev pub is_red : Band → Bool
is_red red = true
is_red _ = false

abbrev pub is_host : Verdict → Bool
is_host host = true
is_host guest = false

-- A red row stands in the matrix.
abbrev pub locked : List CheckRow → Bool
locked rows = any (λ r. is_red r.state) rows

cpu-red :
    (hw : Hardware) (th : Thresholds) → is_red (cpu_row hw th).state ≡ lt_int hw.cpu th.min_cpu
unfolding cpu_row
cpu-red hw th = ground arith

ram-red :
    (fixed : Fixed) (hw : Hardware) (th : Thresholds)
    → hw.ram_gb ≢ nan
    → th.min_ram_gb ≢ nan
    → is_red (ram_row fixed hw th).state ≡ flt hw.ram_gb th.min_ram_gb
unfolding ram_row
ram-red fixed hw th a b = ground (arith, fle-not-flt hw.ram_gb th.min_ram_gb a b)

gpu-red : (hw : Hardware) → is_red (gpu_row hw).state ≡ str_eq hw.gpu ""
unfolding gpu_row
gpu-red hw = ground arith

driver-red :
    (hw : Hardware) (th : Thresholds)
    → is_red (driver_row hw th).state ≡ lt_int hw.driver_major th.min_driver
unfolding driver_row driver_band
driver-red hw th = ground arith

disk-red :
    (fixed : Fixed) (hw : Hardware) (th : Thresholds)
    → hw.disk_free_gb ≢ nan
    → th.min_disk_gb ≢ nan
    → is_red (disk_row fixed hw th).state ≡ flt hw.disk_free_gb th.min_disk_gb
unfolding disk_row
disk-red fixed hw th a b = ground (arith, fle-not-flt hw.disk_free_gb th.min_disk_gb a b)

sudo-red : (hw : Hardware) → is_red (sudo_row hw).state ≡ not hw.has_sudo
unfolding sudo_row
sudo-red hw = ground arith

network-red :
    (m : String) (online : Bool) → is_red (network_row m online).state ≡ (str_eq m "" || not online)
unfolding network_row
network-red m online = ground arith

-- Qualify as one test
qualify-host :
    (fixed : Fixed) (hw : Hardware) (th : Thresholds)
    → not (is_host (qualify fixed hw th).0) ≡ (
        str_eq hw.os "darwin"
        || lt_int hw.cpu th.min_cpu
        || flt hw.ram_gb th.min_ram_gb
        || str_eq hw.gpu ""
        || lt_int hw.driver_major th.min_driver
        || flt hw.disk_free_gb th.min_disk_gb
        || not hw.has_sudo
        || not hw.master_online)
unfolding qualify
qualify-host fixed hw th = ground arith

pub of_int-ne-nan : (n : ℕ) → of_int n ≢ nan
unfolding of_int
of_int-ne-nan n e = ground arith

offline_unset : (m : String) (on : Bool) → (m ≡ "" → on ≡ false) → (str_eq m "" || not on) ≡ not on
offline_unset m on h = elim (Bool-cases (str_eq m "")) [
  | inl hit ↦ ground (arith, h ((eq_iff m "").0 hit))
  | inr miss ↦ ground arith
]

-- The j key is locked, that is, a red row stands in the matrix, exactly when Qualify turns the
-- laptop away, if the memory and the free disk space are numbers and a laptop without a master
-- counts as offline.
pub locked-qualify :
    (fixed : Fixed) (hw : Hardware) (m : String)
    → hw.ram_gb ≢ nan
    → hw.disk_free_gb ≢ nan
    → (m ≡ "" → hw.master_online ≡ false)
    → locked (check_rows fixed hw m hw.master_online)
      ≡ not (is_host (qualify fixed hw default_thresholds).0)
unfolding check_rows default_thresholds
locked-qualify fixed hw m a b h =
    let th = default_thresholds in
    let r = qualify-host fixed hw th in
    ground (
      arith,
      r,
      cpu-red hw th,
      ram-red fixed hw th a (of_int-ne-nan 16),
      gpu-red hw,
      driver-red hw th,
      disk-red fixed hw th b (of_int-ne-nan 25),
      sudo-red hw,
      network-red m hw.master_online,
      offline_unset m hw.master_online h,
    )
