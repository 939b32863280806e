-- ===== src/Join/Model.antt =====
-- control-panel/internal/join/model.go and the wrapper of cmd/join/main.go: the screens of the
-- terminal program, as functions of the key or message that arrives. The engine that the wrapper
-- starts is the value that its update answers.
use ldndrc.Base.{
  String, ℕ, ◌+◌, Bool, true, false, Option, none, some, List, [], ◌∷◌, ◌++◌, not, ◌||◌, ◌&&◌,
  str_eq, if◌then◌else◌,
}
use ldndrc.Join.Discover.{Master, addr}
use ldndrc.Join.Hardware.{Hardware, Fixed}
use ldndrc.Join.Checks.{CheckRow, check_rows}
use ldndrc.Join.Gate.{is_red}

pub data Screen : Type 0 where
  checks_screen fix_screen confirm_screen join_screen done_screen : Screen

pub record Model : Type 0 where
  pub screen : Screen
  pub rows : List CheckRow
  pub fix_index : ℕ
  pub step_log : List String
  pub done_msg : String
  pub master : String
  pub need_toolkit : Bool
  pub skip_note : String
  pub pending_prompt : String
  pub join_started : Bool
  pub quitting : Bool

-- NewModel
unfoldable pub new_model : List CheckRow → Model
new_model rows = record {
  screen = checks_screen;
  rows = rows;
  fix_index = 0;
  step_log = [];
  done_msg = "";
  master = "";
  need_toolkit = false;
  skip_note = "";
  pending_prompt = "";
  join_started = false;
  quitting = false;
}

-- The first red row, counted from i
unfoldable pub first_red : ℕ → List CheckRow → Option ℕ
first_red i [] = none
first_red i (r ∷ rows) =
    let rest = first_red (1 + i) rows in if is_red r.state then some i else rest

abbrev pub install_prompt : String
install_prompt =
    "Install the NVIDIA container toolkit now? (needs sudo)  [y: install / n: skip and join without GPU]"

abbrev pub declined : String
declined = "declined by user — joining without GPU support"

abbrev pub start : Model → Model
start m = record m { screen = join_screen; join_started = true }

-- The keys of the checks screen
unfoldable pub checks_key : String → Model → Model
checks_key key m = elim (first_red 0 m.rows) [
  | some i ↦
      let m : Model = record m { fix_index = i } in
      if str_eq key "enter" then record m { screen = fix_screen } else m
  | none ↦
      if str_eq key "j"
      then if m.need_toolkit
        then record m { pending_prompt = install_prompt; screen = confirm_screen }
        else start m
      else m
]

-- The keys of the consent prompt
unfoldable pub confirm_key : String → Model → Model
confirm_key key m =
    if str_eq key "y" || str_eq key "Y"
    then start m
    else if str_eq key "n" || str_eq key "N"
    then start (record m { need_toolkit = false; skip_note = declined })
    else if str_eq key "esc"
    then record m { screen = checks_screen }
    else m

unfoldable pub screen_key : Screen → String → Model → Model
screen_key checks_screen key m = checks_key key m
screen_key fix_screen key m =
    if str_eq key "esc" || str_eq key "backspace" then record m { screen = checks_screen } else m
screen_key confirm_screen key m = confirm_key key m
screen_key join_screen key m = m
screen_key done_screen key m = if str_eq key "enter" then record m { quitting = true } else m

-- handleKey
unfoldable pub handle_key : Model → String → Model
handle_key m key =
    if str_eq key "ctrl+c" || str_eq key "q"
    then record m { quitting = true }
    else screen_key m.screen key m

-- tea.Msg: a key press, the two messages of the engine, and any other
pub data Msg : Type 0 where
  key_msg step_msg done_msg_s : String → Msg
  other_msg : Msg

-- Update, with the command that it answers: true for tea.Quit
unfoldable pub update : Model → Msg → Model × Bool
update m (key_msg key) = let m = handle_key m key in (m, m.quitting)
update m (step_msg s) = (record m { step_log = m.step_log ++ (s ∷ []) }, false)
update m (done_msg_s s) = (record m { screen = done_screen; done_msg = s }, false)
update m other_msg = (m, false)

-- What the engine is started with, of the configuration: whether to install the toolkit
pub record Launch : Type 0 where
  pub need_toolkit : Bool
  pub skip_note : String

-- appModel: the model and whether the configuration still has its client
pub record App : Type 0 where
  pub m : Model
  pub client : Bool

-- Update of appModel: the application, the engine that it starts and the command
unfoldable pub app_update : App → Msg → App × Option Launch × Bool
app_update a msg =
    let (next, cmd) = update a.m msg in
    if next.join_started && a.client
    then (
      record { m = next; client = false },
      some (record { need_toolkit = next.need_toolkit; skip_note = next.skip_note }),
      cmd,
    )
    else (record { m = next; client = a.client }, none, cmd)

abbrev pub with_launch : Option Launch → List Launch → List Launch
with_launch none ls = ls
with_launch (some l) ls = l ∷ ls

-- The engines that a sequence of messages starts, in their order
unfoldable pub run_app : App → List Msg → List Launch
run_app a [] = []
run_app a (msg ∷ msgs) =
    let (b, launch, _) = app_update a msg in with_launch launch (run_app b msgs)

-- What runTUI reads of its surroundings: the laptop as Detect finds it, what DiscoverMaster
-- answers, whether that port answers, whether the toolkit is there and the TEST_GPU variable
pub record Host : Type 0 where
  pub detected : Hardware
  pub master : Master
  pub probed : Bool
  pub toolkit_present : Bool
  pub test_gpu : String

-- The laptop that runTUI judges
unfoldable pub judged : Host → Hardware
judged x =
    let online = if str_eq x.master.host "" then false else x.probed in
    record x.detected { master_online = online }

abbrev pub protocol_run : String
protocol_run = "test GPU override — protocol run, no hardware install"

unfoldable pub override : Bool → Model → Model
override b m = if b then record m { need_toolkit = false; skip_note = protocol_run } else m

-- runTUI, up to the start of the event loop
unfoldable pub run_tui : Fixed → Host → App
run_tui fixed x =
    let hw = judged x in
    let rows = check_rows fixed hw x.master.host hw.master_online in
    let needed = not (str_eq hw.gpu "") && not x.toolkit_present in
    let m : Model = record (new_model rows) { master = addr x.master; need_toolkit = needed } in
    record { m = override (needed && not (str_eq x.test_gpu "")) m; client = true }
