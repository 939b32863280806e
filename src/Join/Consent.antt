-- ===== src/Join/Consent.antt =====
-- When the terminal program starts the engine: once at most, never past a red row, and with the
-- toolkit's installation only after a yes.
use ldndrc.Base.{
  ◌≡◌, ◌∙◌, ap, sym, refl, String, ℕ, ◌+◌, Bool, true, false, Option, none, some, List, [], ◌∷◌,
  not, any, ◌&&◌, ◌||◌, ◌⊎◌, inl, inr, Bool-cases, Option-cases, arith, eq_iff, str_eq,
}
use ldndrc.Join.Discover.{addr}
use ldndrc.Join.Checks.{CheckRow, check_rows}
use ldndrc.Base.{◌≢◌}
use ldndrc.Base.Float.{nan}
use ldndrc.Join.Hardware.{Verdict, host, guest, Fixed, default_thresholds, qualify}
use ldndrc.Join.Gate.{is_red, is_host, locked, locked-qualify}
use ldndrc.Join.Model.{
  Screen, confirm_screen, checks_screen, fix_screen, join_screen, done_screen, Model, new_model,
  first_red, checks_key, confirm_key, screen_key, handle_key, Msg, key_msg, step_msg, done_msg_s,
  other_msg, update, Launch, App, app_update, run_app, Host, judged, override, run_tui, with_launch,
}

abbrev pub at_confirm : Screen → Bool
at_confirm confirm_screen = true
at_confirm _ = false

-- The key y or Y
abbrev pub is_yes : Msg → Bool
is_yes (key_msg key) = str_eq key "y" || str_eq key "Y"
is_yes _ = false

first_red-locked : (i : ℕ) (rows : List CheckRow) → first_red i rows ≡ none → locked rows ≡ false
unfolding first_red
first_red-locked i [] h = refl
first_red-locked i (r ∷ rows) h = elim (Bool-cases (is_red r.state)) [
  | inl hit ↦ ground (arith, h)
  | inr miss ↦ let rest = first_red-locked (1 + i) rows (ground (arith, h)) in ground (arith, rest)
]

-- The prompt is only shown when no row is red.
Waiting : Model → Type 0
Waiting m = (at_confirm m.screen && locked m.rows) ≡ false

-- What a message does to a model that has not started
Answer : Model → Msg → Model → Type 0
Answer m msg n =
    (n.rows ≡ m.rows)
    × ((n.join_started && locked m.rows) ≡ false)
    × ((n.join_started && n.need_toolkit && not (is_yes msg)) ≡ false)
    × ((n.need_toolkit && not m.need_toolkit) ≡ false)
    × ((at_confirm n.screen && locked m.rows) ≡ false)

checks_key-Answer :
    (key : String) (m : Model)
    → m.join_started ≡ false
    → at_confirm m.screen ≡ false
    → Answer m (key_msg key) (checks_key key m)
unfolding checks_key Answer
checks_key-Answer key m h c = elim (Option-cases (first_red 0 m.rows)) [
  | inl none_red ↦ let free = first_red-locked 0 m.rows none_red in ground (arith, none_red, free)
  | inr (i, some_red) ↦ ground arith
]

confirm_key-Answer :
    (key : String) (m : Model)
    → m.join_started ≡ false
    → locked m.rows ≡ false
    → Answer m (key_msg key) (confirm_key key m)
unfolding confirm_key Answer
confirm_key-Answer key m h c = ground arith

screen_key-Answer :
    (key : String) (s : Screen) (m : Model)
    → m.screen ≡ s
    → m.join_started ≡ false
    → Waiting m
    → Answer m (key_msg key) (screen_key s key m)
unfolding screen_key Waiting Answer
screen_key-Answer key checks_screen m e h w = checks_key-Answer key m h (ground arith)
screen_key-Answer key confirm_screen m e h w = confirm_key-Answer key m h (ground arith)
screen_key-Answer key fix_screen m e h w = ground arith
screen_key-Answer key join_screen m e h w = ground arith
screen_key-Answer key done_screen m e h w = ground arith

update-Answer :
    (m : Model) (msg : Msg) → m.join_started ≡ false → Waiting m → Answer m msg (update m msg).0
unfolding update handle_key Waiting Answer
update-Answer m (key_msg key) h w = ground (arith, screen_key-Answer key m.screen m refl h w)
update-Answer m (step_msg s) h w = ground arith
update-Answer m (done_msg_s s) h w = ground arith
update-Answer m other_msg h w = ground arith

app_update-starts :
    (a : App) (msg : Msg)
    → ((update a.m msg).0.join_started && a.client) ≡ true
    → ((app_update a msg).0 ≡ record { m = (update a.m msg).0; client = false })
      × ((app_update a msg).1
          ≡ some (record {
            need_toolkit = (update a.m msg).0.need_toolkit;
            skip_note = (update a.m msg).0.skip_note;
          }))
unfolding app_update
app_update-starts a msg h = (rw h, rw h)

app_update-idle :
    (a : App) (msg : Msg)
    → ((update a.m msg).0.join_started && a.client) ≡ false
    → ((app_update a msg).0 ≡ record { m = (update a.m msg).0; client = a.client })
      × ((app_update a msg).1 ≡ none)
unfolding app_update
app_update-idle a msg h = (rw h, rw h)

run_app-next :
    (a b : App) (o : Option Launch) (msg : Msg) (msgs : List Msg)
    → (app_update a msg).0 ≡ b
    → (app_update a msg).1 ≡ o
    → run_app a (msg ∷ msgs) ≡ with_launch o (run_app b msgs)
unfolding run_app
run_app-next a b o msg msgs e f i = with_launch (f i) (run_app (e i) msgs)

-- Nothing is launched after the client is gone.
launched : (a : App) (msgs : List Msg) → a.client ≡ false → run_app a msgs ≡ []
unfolding run_app
launched a [] h = refl
launched a (msg ∷ msgs) h =
    let (e, f) = app_update-idle a msg (ground arith) in
    let b : App = record { m = (update a.m msg).0; client = a.client } in
    run_app-next a b none msg msgs e f ∙ launched b msgs h

-- The engine was never started, or once: then no row is red, and if it installs the toolkit, the
-- program asked for it and one of the messages was a yes.
pub Consented : List CheckRow → Bool → List Msg → List Launch → Type 0
Consented rows needed msgs ls =
    (ls ≡ [])
    ⊎ ((l : Launch) × (ls ≡ l ∷ [])
        × (locked rows ≡ false)
        × ((l.need_toolkit && not (needed && any is_yes msgs)) ≡ false))

run-Consented :
    (a : App) (msgs : List Msg)
    → a.m.join_started ≡ false
    → a.client ≡ true
    → Waiting a.m
    → Consented a.m.rows a.m.need_toolkit msgs (run_app a msgs)
unfolding run_app Consented Answer Waiting
run-Consented a [] h c w = inl refl
run-Consented a (msg ∷ msgs) h c w =
    let (same_rows, free, agreed, asked, quiet) = update-Answer a.m msg h w in
    let n = (update a.m msg).0 in
    elim (Bool-cases n.join_started) [
      | inl started ↦
          let (e, f) = app_update-starts a msg (ground (arith, started)) in
          let b : App = record { m = n; client = false } in
          let l : Launch = record { need_toolkit = n.need_toolkit; skip_note = n.skip_note } in
          let next = run_app-next a b (some l) msg msgs e f in
          inr (
            l,
            next ∙ ap (λ x. l ∷ x) (launched b msgs refl),
            ground (arith, free, started),
            ground (arith, started, agreed, asked),
          )
      | inr idle ↦
          let (e, f) = app_update-idle a msg (ground (arith, idle)) in
          let b : App = record { m = n; client = a.client } in
          let next = run_app-next a b none msg msgs e f in
          elim (run-Consented b msgs idle c (rw same_rows quiet)) [
            | inl never ↦ inl (next ∙ never)
            | inr (l, once, none_red, allowed) ↦
                inr (l, next ∙ once, rw (← same_rows) none_red, ground (arith, allowed, asked))
          ]
    ]

-- The laptop that the program judged, and what the user and the surroundings said to the toolkit
unfoldable pub may_install : Host → List Msg → Bool
may_install x msgs =
    not (str_eq x.detected.gpu "")
    && not x.toolkit_present
    && str_eq x.test_gpu ""
    && any is_yes msgs

override-keeps :
    (b : Bool) (m : Model)
    → ((override b m).rows ≡ m.rows)
      × ((override b m).join_started ≡ m.join_started)
      × ((override b m).screen ≡ m.screen)
      × ((override b m).need_toolkit ≡ (m.need_toolkit && not b))
unfolding override
override-keeps true m = (refl, refl, refl, ground arith)
override-keeps false m = (refl, refl, refl, ground arith)

offline_judged : (x : Host) → x.master.host ≡ "" → (judged x).master_online ≡ false
unfolding judged
offline_judged x e = ground (arith, (eq_iff x.master.host "").1 e)

Waiting-on_checks : (m : Model) → m.screen ≡ checks_screen → Waiting m
unfolding Waiting
Waiting-on_checks m e = ap (λ s. at_confirm s && locked m.rows) e

-- A laptop without a red row is a host.
host_if : (v : Verdict) (l : Bool) → l ≡ not (is_host v) → l ≡ false → v ≡ host
host_if host l e f = refl
host_if guest l e f = ground arith

-- For every sequence of keys and messages, the terminal program starts the engine never, or once
-- and then on a laptop that Qualify makes a host. The engine is told to install the toolkit only
-- if the laptop has a GPU but no toolkit, TEST_GPU is not set, and a key was the yes. The memory
-- and the free disk space are taken to be numbers.
pub tui_consents :
    (fixed : Fixed) (x : Host) (msgs : List Msg)
    → x.detected.ram_gb ≢ nan
    → x.detected.disk_free_gb ≢ nan
    → (run_app (run_tui fixed x) msgs ≡ [])
      ⊎ ((l : Launch) × (run_app (run_tui fixed x) msgs ≡ l ∷ [])
          × ((qualify fixed (judged x) default_thresholds).0 ≡ host)
          × ((l.need_toolkit && not (may_install x msgs)) ≡ false))
unfolding run_tui judged Consented Waiting new_model may_install
tui_consents fixed x msgs ram disk =
    let hw = judged x in
    let offline = λ (e : x.master.host ≡ ""). offline_judged x e in
    let gate = locked-qualify fixed hw x.master.host ram disk offline in
    let needed = not (str_eq hw.gpu "") && not x.toolkit_present in
    let rows = check_rows fixed hw x.master.host hw.master_online in
    let m : Model = record (new_model rows) { master = addr x.master; need_toolkit = needed } in
    let (same_rows, idle, screen, needs) =
      override-keeps (needed && not (str_eq x.test_gpu "")) m in
    elim (run-Consented (run_tui fixed x) msgs idle refl
      (Waiting-on_checks (run_tui fixed x).m screen)) [
        | inl never ↦ inl never
        | inr (l, once, none_red, allowed) ↦ inr (
          l,
          once,
          host_if _ _ gate (ap locked (sym same_rows) ∙ none_red),
          ground (arith, needs, allowed),
        )
      ]
