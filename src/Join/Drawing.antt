-- ===== src/Join/Drawing.antt =====
-- The terminal program can always be drawn, and the card that it shows is of a row that blocks.
use ldndrc.Base.{
  ◌⊎◌, concat, ℕ, suc, ◌+◌, ◌≡◌, refl, ap, subst, inl, inr, String, Bool, true, false, some, List,
  [], ◌∷◌, ◌||◌, arith, str_eq, Bool-cases, Option-cases,
}
use ldndrc.Join.Checks.{CheckRow}
use ldndrc.Join.Gate.{is_red}
use ldndrc.Join.Hardware.{Fixed}
use ldndrc.Join.Model.{
  Screen, checks_screen, fix_screen, confirm_screen, join_screen, done_screen, Model, Msg, key_msg,
  step_msg, done_msg_s, other_msg, new_model, first_red, checks_key, confirm_key, screen_key,
  handle_key, update, Host, run_tui, override,
}
use ldndrc.Join.View.{Styles, get_elem?, fix_card, screen_text, view, after}

abbrev pub is_fix : Screen → Bool
is_fix fix_screen = true
is_fix _ = false

-- A red row stands at the index.
abbrev Blocks : List CheckRow → ℕ → Type 0
Blocks rows i = (r : CheckRow) × (get_elem? rows i ≡ some r) × (is_red r.state ≡ true)

-- The index of the fix screen is of a red row.
abbrev IsDrawable : Model → Type 0
IsDrawable m = is_fix m.screen ≡ true → Blocks m.rows m.fix_index

first_red-Blocks :
    (k i : ℕ) (rows : List CheckRow)
    → first_red k rows ≡ some i
    → (j : ℕ) × (i ≡ k + j) × Blocks rows j
unfolding first_red get_elem?
first_red-Blocks k i [] h = absurd (ground (arith, h))
first_red-Blocks k i (r ∷ rows) h = elim (Bool-cases (is_red r.state)) [
  | inl bad ↦ (0, ground (arith, bad, h), (r, refl, bad))
  | inr good ↦
      let (j, e, (s, found, bad)) = first_red-Blocks (1 + k) i rows (ground (arith, good, h)) in
      (suc j, omega (arith, e), (s, found, bad))
]

checks_key-IsDrawable : (key : String) (m : Model) → IsDrawable m → IsDrawable (checks_key key m)
unfolding checks_key
checks_key-IsDrawable key m d = elim (Option-cases (first_red 0 m.rows)) [
  | inr (i, found) ↦
      let (j, e, b) = first_red-Blocks 0 i m.rows found in
      let there : Blocks m.rows i = subst (Blocks m.rows) (omega (arith, e)) b in
      elim (Bool-cases (str_eq key "enter")) [
        | inl enter ↦ rw (found, checks_key, enter) (λ h. there)
        | inr more ↦ rw (found, checks_key, more) (λ h. there)
      ]
  | inl clear ↦ elim (Bool-cases (str_eq key "j")) [
    | inr more ↦ rw (clear, checks_key, more) d
    | inl join ↦ elim (Bool-cases m.need_toolkit) [
      | inl needed ↦ rw (clear, checks_key, join, needed) (λ h. absurd (ground (arith, h)))
      | inr ready ↦ rw (clear, checks_key, join, ready) (λ h. absurd (ground (arith, h)))
    ]
  ]
]

-- A model on another screen
elsewhere : (m : Model) → is_fix m.screen ≡ false → IsDrawable m
elsewhere m off h = absurd (ground (arith, off, h))

confirm_key-IsDrawable : (key : String) (m : Model) → IsDrawable m → IsDrawable (confirm_key key m)
unfolding confirm_key
confirm_key-IsDrawable key m d = elim (Bool-cases (str_eq key "y" || str_eq key "Y")) [
  | inl agreed ↦ rw agreed (λ h. absurd (ground (arith, h)))
  | inr silent ↦ elim (Bool-cases (str_eq key "n" || str_eq key "N")) [
    | inl declined ↦ rw (silent, declined) (λ h. absurd (ground (arith, h)))
    | inr more ↦ elim (Bool-cases (str_eq key "esc")) [
      | inl esc ↦ rw (silent, more, esc) (λ h. absurd (ground (arith, h)))
      | inr rest ↦ rw (silent, more, rest) d
    ]
  ]
]

screen_key-IsDrawable :
    (screen : Screen) (key : String) (m : Model)
    → IsDrawable m
    → IsDrawable (screen_key screen key m)
unfolding screen_key
screen_key-IsDrawable checks_screen key m d = checks_key-IsDrawable key m d
screen_key-IsDrawable fix_screen key m d =
    elim (Bool-cases (str_eq key "esc" || str_eq key "backspace")) [
      | inl back ↦ rw back (λ h. absurd (ground (arith, h)))
      | inr more ↦ rw more d
    ]
screen_key-IsDrawable confirm_screen key m d = confirm_key-IsDrawable key m d
screen_key-IsDrawable join_screen key m d = d
screen_key-IsDrawable done_screen key m d = elim (Bool-cases (str_eq key "enter")) [
  | inl over ↦ rw over d
  | inr more ↦ rw more d
]

update-IsDrawable : (m : Model) (msg : Msg) → IsDrawable m → IsDrawable (update m msg).0
unfolding update handle_key
update-IsDrawable m (step_msg s) d = d
update-IsDrawable m (done_msg_s s) d = λ h. absurd (ground (arith, h))
update-IsDrawable m other_msg d = d
update-IsDrawable m (key_msg key) d = elim (Bool-cases (str_eq key "ctrl+c" || str_eq key "q")) [
  | inl over ↦ rw over d
  | inr more ↦ rw more (screen_key-IsDrawable m.screen key m d)
]

after-IsDrawable : (m : Model) (msgs : List Msg) → IsDrawable m → IsDrawable (after m msgs)
unfolding after
after-IsDrawable m [] d = d
after-IsDrawable m (msg ∷ msgs) d =
    after-IsDrawable (update m msg).0 msgs (update-IsDrawable m msg d)

screen_text-IsDrawable :
    (styles : Styles) (screen : Screen) (m : Model)
    → (is_fix screen ≡ true → Blocks m.rows m.fix_index)
    → (text : String) × (screen_text styles screen m ≡ some text)
unfolding screen_text fix_card
screen_text-IsDrawable styles checks_screen m d = (_, refl)
screen_text-IsDrawable styles confirm_screen m d = (_, refl)
screen_text-IsDrawable styles join_screen m d = (_, refl)
screen_text-IsDrawable styles done_screen m d = (_, refl)
screen_text-IsDrawable styles fix_screen m d =
    let (r, found, bad) = d refl in
    let shown = fix_card styles (some r) in
    (
      concat (
          styles.red (concat ("Fix: " ∷ r.name ∷ []))
          ∷ "\n"
          ∷ r.detail
          ∷ "\n"
          ∷ "\n[esc: back]\n"
          ∷ []),
      ap (fix_card styles) found,
    )

view-IsDrawable :
    (styles : Styles) (m : Model) → IsDrawable m → (text : String) × (view styles m ≡ some text)
unfolding view
view-IsDrawable styles m d = elim (Bool-cases m.quitting) [
  | inl over ↦ ("bye.\n", ground (arith, over))
  | inr on ↦
      let (text, shown) = screen_text-IsDrawable styles m.screen m d in
      (concat (styles.title "ldndrc-join" ∷ "\n\n" ∷ text ∷ []), ground (arith, on, shown))
]

run_tui-IsDrawable : (fixed : Fixed) (x : Host) → IsDrawable (run_tui fixed x).m
unfolding run_tui new_model override
run_tui-IsDrawable fixed x = elsewhere (run_tui fixed x).m (ground arith)

-- Whatever keys and messages arrive, View of the model draws it, and never panics at the index of the
-- fix card; on the fix screen the card is that of a row of the matrix that blocks the join.
pub view_never_panics :
    (styles : Styles) (fixed : Fixed) (x : Host) (msgs : List Msg)
    → let m = after (run_tui fixed x).m msgs in
      ((text : String) × (view styles m ≡ some text))
      × ((is_fix m.screen ≡ false)
          ⊎ ((r : CheckRow) × (get_elem? m.rows m.fix_index ≡ some r) × (is_red r.state ≡ true)))
view_never_panics styles fixed x msgs =
    let m = after (run_tui fixed x).m msgs in
    let d = after-IsDrawable (run_tui fixed x).m msgs (run_tui-IsDrawable fixed x) in
    (
      view-IsDrawable styles m d,
      elim (Bool-cases (is_fix m.screen)) [ inl fix ↦ inr (d fix) | inr off ↦ inl off ],
    )
