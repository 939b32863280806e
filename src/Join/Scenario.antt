-- ===== src/Join/Scenario.antt =====
-- The overrides make a test scenario of any machine.
use ldndrc.Base.{◌≡◌, ◌≢◌, refl, ap, ℤ, String, true, some, ok, arith, eq_iff}
use ldndrc.Base.Float.{Float64, of_int}
use ldndrc.Join.Hardware.{Fixed, Hardware, run_plain}
use ldndrc.Join.Detect.{
  Library, Machine, Overrides, detect, override_int, override_float, override_gpu, nvidia_probe,
  phys_ram_gb,
}

-- The fields of the hardware that runPlain prints and judges
abbrev plain_view : Hardware → Hardware
plain_view hw = record hw { disk_free_gb = of_int 0; has_sudo = true; master_online = true }

run_plain-view :
    (fixed : Fixed) (a b : Hardware)
    → plain_view a ≡ plain_view b
    → run_plain fixed a ≡ run_plain fixed b
unfolding run_plain
run_plain-view fixed a b same = ap (run_plain fixed) same

module _ (lib : Library) where
  override_int-set : (v : String) (n m : ℤ) → v ≢ "" → lib.atoi v ≡ ok n → override_int lib v m ≡ n
  unfolding override_int
  override_int-set v n m named parsed = ground (arith, named, parsed, eq_iff v "")

  override_float-set :
      (v : String) (f g : Float64)
      → v ≢ ""
      → lib.parse_float v ≡ some f
      → override_float lib v g ≡ f
  unfolding override_float
  override_float-set v f g named parsed = ground (arith, named, parsed, eq_iff v "")

  override_gpu-set :
      (v : String) (p q : String × ℤ) → v ≢ "" → override_gpu lib v p ≡ override_gpu lib v q
  unfolding override_gpu
  override_gpu-set v p q named = ground (arith, named, eq_iff v "")

-- With TEST_CPU and TEST_RAM set to numbers and TEST_GPU set, `--plain` prints the same two lines on
-- every Linux machine: the overrides decide what it detects and whether the laptop is a host.
plain_by_overrides :
    (lib : Library) (fixed : Fixed) (vars : Overrides) (m m' : Machine) (n : ℤ) (f : Float64)
    → vars.cpu ≢ ""
    → lib.atoi vars.cpu ≡ ok n
    → vars.ram ≢ ""
    → lib.parse_float vars.ram ≡ some f
    → vars.gpu ≢ ""
    → m.os ≡ m'.os
    → run_plain fixed (detect lib vars m) ≡ run_plain fixed (detect lib vars m')
unfolding detect
plain_by_overrides lib fixed vars m m' n f cpu_set cpu_parses ram_set ram_parses gpu_set system =
    let cpu = override_int-set lib vars.cpu n m.cpus cpu_set cpu_parses in
    let cpu' = override_int-set lib vars.cpu n m'.cpus cpu_set cpu_parses in
    let ram = override_float-set lib vars.ram f (phys_ram_gb lib m.meminfo) ram_set ram_parses in
    let ram' = override_float-set lib vars.ram f (phys_ram_gb lib m'.meminfo) ram_set ram_parses in
    let gpu =
      override_gpu-set lib vars.gpu (nvidia_probe lib m.gpus m.driver)
        (nvidia_probe lib m'.gpus m'.driver) gpu_set in
    run_plain-view fixed (detect lib vars m) (detect lib vars m')
      (rw (system, cpu, cpu', ram, ram', gpu) refl)
