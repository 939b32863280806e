-- ===== src/Join/View.antt =====
-- View of control-panel/internal/join/model.go: what the terminal shows of each screen. lipgloss's
-- drawing of a text in a style is a parameter.
use Prim.Native.String.{len}
use ldndrc.Base.{
  ℕ, zero, suc, ◌-◌, String, Option, none, some, List, [], ◌∷◌, concat, if◌then◌else◌,
}
use ldndrc.Join.Checks.{CheckRow}
use ldndrc.Join.Hardware.{Band, green, amber, red}
use ldndrc.Join.Model.{
  Screen, checks_screen, fix_screen, confirm_screen, join_screen, done_screen, Model, Msg, update,
}

-- The styles titleStyle, greenStyle, amberStyle, redStyle and dimStyle
pub record Styles : Type 0 where
  pub title : String → String
  pub green : String → String
  pub amber : String → String
  pub red : String → String
  pub dim : String → String

spaces : ℕ → String
spaces zero = ""
spaces (suc n) = concat (" " ∷ spaces n ∷ [])

-- fmt's %-10s
unfoldable pub padded : String → String
unfolding spaces
padded s = concat (s ∷ spaces (10 - len s) ∷ [])

-- m.Rows[i], or `none`, which is the panic of an index out of range
unfoldable pub get_elem? {ℓ} : {A : Type ℓ} → List A → ℕ → Option A
get_elem? [] i = none
get_elem? (x ∷ xs) zero = some x
get_elem? (x ∷ xs) (suc i) = get_elem? xs i

-- The lines of the step log
unfoldable pub log_lines : List String → String
log_lines [] = ""
log_lines (s ∷ ss) = concat ("  " ∷ s ∷ "\n" ∷ log_lines ss ∷ [])

module _ (styles : Styles) where
  abbrev dot : Band → String
  dot green = styles.green "●"
  dot amber = styles.amber "●"
  dot red = styles.red "●"

  unfoldable pub row_lines : List CheckRow → String
  row_lines [] = ""
  row_lines (r ∷ rows) = concat (
      "  "
      ∷ dot r.state
      ∷ " "
      ∷ padded r.name
      ∷ " "
      ∷ styles.dim r.detail
      ∷ "\n"
      ∷ row_lines rows
      ∷ [])

  unfoldable pub fix_card : Option CheckRow → Option String
  fix_card none = none
  fix_card (some r) = some (
      concat (
        styles.red (concat ("Fix: " ∷ r.name ∷ []))
        ∷ "\n"
        ∷ r.detail
        ∷ "\n"
        ∷ "\n[esc: back]\n"
        ∷ []))

  -- The switch over the screen
  unfoldable pub screen_text : Screen → Model → Option String
  screen_text checks_screen m = some (
      concat (
        "Pre-flight checks (Join locked until all blocking rows are green):\n"
        ∷ row_lines m.rows
        ∷ "\n[enter on red row: fix card]  [j: join]  [q: quit]\n"
        ∷ []))
  screen_text fix_screen m = fix_card (get_elem? m.rows m.fix_index)
  screen_text confirm_screen m =
      some (concat (styles.amber "Confirm" ∷ "\n" ∷ m.pending_prompt ∷ "\n" ∷ []))
  screen_text join_screen m =
      some (concat ("Joining via master " ∷ m.master ∷ ":\n" ∷ log_lines m.step_log ∷ []))
  screen_text done_screen m = some (concat (m.done_msg ∷ "\n" ∷ "\n[enter: quit]\n" ∷ []))

  abbrev under_title : Option String → Option String
  under_title none = none
  under_title (some text) = some (concat (styles.title "ldndrc-join" ∷ "\n\n" ∷ text ∷ []))

  -- View; `none` is a panic
  unfoldable pub view : Model → Option String
  view m = if m.quitting then some "bye.\n" else under_title (screen_text m.screen m)

-- The model after a row of keys and messages
unfoldable pub after : Model → List Msg → Model
after m [] = m
after m (msg ∷ msgs) = after (update m msg).0 msgs
