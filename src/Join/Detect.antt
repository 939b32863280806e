-- ===== src/Join/Detect.antt =====
-- Detect of control-panel/internal/join/detect_linux.go, detect_darwin.go and detect_windows.go. What
-- the machine answers, strconv, fmt.Sscanf, strings.TrimSpace and float64's conversion and division
-- are parameters.
use ldndrc.Base.{
  ℕ, ◌*◌, ◌%◌, ◌^◌, ℤ, pos, String, Bool, false, ◌||◌, Option, none, some, List, [], ◌∷◌, Result,
  ok, err, str_eq, split, head_text, if◌then◌else◌,
}
use ldndrc.Base.Float.{Float64, of_int}
use ldndrc.Join.Hardware.{Hardware}

-- The libraries: Atoi, ParseFloat, Sscanf with "%s %f", TrimSpace, and float64
pub record Library : Type 0 where
  pub atoi : String → Result ℤ ℤ
  pub parse_float : String → Option Float64
  pub scan : String → Option (String × Float64)
  pub trim_space : String → String
  pub of_uint64 : ℕ → Float64
  pub divide : Float64 → Float64 → Float64

-- What the machine answers: runtime, /proc/meminfo by its lines, the two calls of nvidia-smi, the
-- user and sudo, and Statfs by Bavail and Bsize
pub record Machine : Type 0 where
  pub os : String
  pub cpus : ℤ
  pub meminfo : Option (List String)
  pub gpus : Option String
  pub driver : Option String
  pub is_root : Bool
  pub may_sudo : Bool
  pub disk : Option (ℕ × ℕ)

-- TEST_CPU, TEST_RAM, TEST_GPU and TEST_DISK
pub record Overrides : Type 0 where
  pub cpu : String
  pub ram : String
  pub gpu : String
  pub disk : String

abbrev is_total : Option (String × Float64) → Option Float64
is_total none = none
is_total (some (key, kb)) = if str_eq key "MemTotal:" then some kb else none

module _ (lib : Library) where
  -- The loop of physRAMGB over the lines
  unfoldable pub ram_among : List String → Float64
  ram_among [] = of_int 0
  ram_among (l ∷ ls) =
      let rest = ram_among ls in
      elim (is_total (lib.scan l)) [
        | some kb ↦ lib.divide (lib.divide kb (of_int 1024)) (of_int 1024)
        | none ↦ rest
      ]

  -- physRAMGB
  unfoldable pub phys_ram_gb : Option (List String) → Float64
  phys_ram_gb none = of_int 0
  phys_ram_gb (some ls) = ram_among ls

  -- The value that Atoi returns, also beside an error
  abbrev value_of : Result ℤ ℤ → ℤ
  value_of (ok n) = n
  value_of (err n) = n

  abbrev first_line : String → String
  first_line text = lib.trim_space (head_text (split b'\n' text))

  abbrev driver_major : Option String → ℤ
  driver_major none = pos 0
  driver_major (some v) = value_of (lib.atoi (head_text (split b'.' (first_line v))))

  -- nvidiaProbe
  unfoldable pub nvidia_probe : Option String → Option String → String × ℤ
  nvidia_probe none driver = ("", pos 0)
  nvidia_probe (some out) driver = (first_line out, driver_major driver)

  -- diskFreeGB; the product wraps at 64 bits.
  unfoldable pub disk_free_gb : Option (ℕ × ℕ) → Float64
  disk_free_gb none = of_int 0
  disk_free_gb (some (bavail, bsize)) =
      lib.divide (lib.of_uint64 ((bavail * bsize) % 2 ^ 64)) (of_int 1000000000)

  -- canSudo
  unfoldable pub can_sudo : Machine → Bool
  can_sudo m = m.is_root || m.may_sudo

  abbrev set_int : Result ℤ ℤ → ℤ → ℤ
  set_int (ok n) m = n
  set_int (err e) m = m

  abbrev set_float : Option Float64 → Float64 → Float64
  set_float (some f) g = f
  set_float none g = g

  -- The tests of TEST_CPU, and of TEST_RAM and TEST_DISK
  unfoldable pub override_int : String → ℤ → ℤ
  override_int v n = if str_eq v "" then n else set_int (lib.atoi v) n

  unfoldable pub override_float : String → Float64 → Float64
  override_float v f = if str_eq v "" then f else set_float (lib.parse_float v) f

  -- The test of TEST_GPU
  unfoldable pub override_gpu : String → String × ℤ → String × ℤ
  override_gpu v probed =
      if str_eq v ""
      then probed
      else if str_eq v "none"
      then ("", pos 0)
      else ("NVIDIA (test override)", pos 550)

  -- Detect on Linux
  unfoldable pub detect : Overrides → Machine → Hardware
  detect vars m =
      let (gpu, driver) = override_gpu vars.gpu (nvidia_probe m.gpus m.driver) in
      record {
        os = m.os;
        cpu = override_int vars.cpu m.cpus;
        ram_gb = override_float vars.ram (phys_ram_gb m.meminfo);
        gpu = gpu;
        driver_major = driver;
        disk_free_gb = override_float vars.disk (disk_free_gb m.disk);
        has_sudo = can_sudo m;
        master_online = false;
      }

-- Detect on macOS, with runtime.GOOS, and on Windows, with "windows"
unfoldable pub detect_other : String → ℤ → Hardware
detect_other os cpus = record {
  os = os;
  cpu = cpus;
  ram_gb = of_int 0;
  gpu = "";
  driver_major = pos 0;
  disk_free_gb = of_int 0;
  has_sudo = false;
  master_online = false;
}
