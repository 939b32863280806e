-- ===== src/Join/RunExamples.antt =====
-- The engine at work: a laptop that is approved after two polls, and joins.
use ldndrc.Base.{
  ℕ, zero, ◌<◌, ◌==◌, suc, ◌≡◌, refl, inl, inr, eq_iff, Bool-cases, String, Bool, true, false,
  Option, none, some, List, [], ◌∷◌, ◌++◌, ok, pos, arith, str_eq, if◌then◌else◌,
}
use ldndrc.Join.Engine.{Exchange, PollResult, World, RunConfig}
use ldndrc.Join.Runner.{run_join}
use ldndrc.Join.Waiting.{KeepsTime, Ends, run_join-Ends}
use ldndrc.Join.Secrecy.{replaced, Differs, token_unseen}
use ldndrc.Join.Examples.{laptop}

-- The ticks that are left of a wait, whether the agent runs, and the lines that were written
pub record Clock : Type 0 where
  pub left : ℕ
  pub runs : Bool
  pub written : List String

abbrev answer : ℕ → Bool → String → Exchange PollResult
answer left runs token = ok (
  200,
  ok (record {
    status = if runs then "joined" else if left == 3 then "pending" else "approved";
    reason = "";
    k3s_url = "https://10.0.0.9:6443";
    k3s_token = token;
    node_name = "ldndrc-010203";
  }),
)

abbrev tick_at : ℕ → Clock → Bool × Clock
tick_at zero w = (true, w)
tick_at (suc n) w = (false, record w { left = n })

abbrev tick : Clock → Bool × Clock
tick w = tick_at w.left w

abbrev pub idle : Clock
idle = record { left = 0; runs = false; written = [] }

abbrev pub world : World Clock
world = record {
  register = λ fp w. (ok (201, ok "010203"), w);
  poll = λ id w. (answer w.left w.runs "K10secret", w);
  upload = λ id text w. (ok 201, w);
  start = λ timeout w. record w { left = 3 };
  select = tick;
  toolkit = λ w. (none, w);
  agent = λ url token name w. (none, record w { runs = true });
  emit = λ line w. record w { written = w.written ++ line ∷ [] };
  rfc3339 = λ w. ("2025-01-02T03:04:05Z", w);
  file_stamp = λ w. ("20250102-030405", w);
  join_path = λ dir name. dir;
  sprintf = λ format s. format;
  write_file = λ path text w. (none, w);
}

abbrev pub cfg : RunConfig
cfg = record {
  hostname = "legion";
  os = "linux";
  arch = "amd64";
  hw = laptop;
  join_key = "";
  master = record { host = "10.0.0.9"; port = pos 8082 };
  control_url = "http://10.0.0.9:8082";
  need_toolkit = false;
  skip_note = "no NVIDIA GPU";
  timeout = 0;
  bundle_dir = "/tmp";
}

tick_at-less : (n : ℕ) (w : Clock) → (tick_at n w).0 ≡ false → (tick_at n w).1.left < n
tick_at-less zero w h = absurd (ground arith)
tick_at-less (suc n) w h = omega arith

world-KeepsTime : KeepsTime world (λ w. w.left) (λ timeout. 3)
world-KeepsTime = record {
  begins = λ timeout w. omega arith;
  polls = λ id w. omega arith;
  ticks = λ w h. tick_at-less w.left w h;
}

run_join-Ends_example : Ends (run_join world cfg 4 idle) (run_join world cfg 9 idle)
run_join-Ends_example =
    run_join-Ends world (λ w. w.left) (λ timeout. 3) cfg 4 9 idle world-KeepsTime (omega arith)
      (omega arith)

-- Another token in the place of the first
abbrev pub other : String → String
other t = if str_eq t "K10secret" then "K10public" else t

abbrev pub other_poll : String → Clock → Exchange PollResult × Clock
other_poll id w = (answer w.left w.runs "K10public", w)

-- An installer of the toolkit that fails
abbrev broken : Clock → Option String × Clock
broken w = (some "no apt", w)

pub other-empty : (t : String) → str_eq (other t) "" ≡ str_eq t ""
other-empty t = elim (Bool-cases (str_eq t "K10secret")) [
  | inl h ↦ rw (h, (eq_iff t "K10secret").0 h) refl
  | inr h ↦ rw h refl
]

world-Differs : Differs world other other_poll world.agent broken false
world-Differs = record {
  keeps_empty = other-empty;
  polls = λ id w. refl;
  agents = λ res w full. refl;
  toolkits = λ need w. absurd (ground arith);
}

token_unseen_example :
    run_join (replaced world other_poll world.agent broken) cfg 4 idle ≡ run_join world cfg 4 idle
token_unseen_example =
    token_unseen world cfg other other_poll world.agent broken 4 idle world-Differs
