-- ===== src/Join/Waiting.antt =====
-- The engine ends: its two waits stop at the latest with their timers.
use ldndrc.Base.{
  ℕ, zero, suc, ◌<◌, ◌≤◌, ◌≡◌, refl, inl, inr, String, Bool, true, false, Option, none, some, List,
  Result, ok, err, arith, Bool-cases, str_eq, not, Option-cases, if◌then◌else◌,
}
use ldndrc.Join.Engine.{
  PollResult, World, RunConfig, poll_result, accepts, wait_loop, wait_approval, wait_joined,
}
use ldndrc.Join.Runner.{
  timeout_of, and_then, confirm, agent_done, install_agent, toolkit_done, install_toolkit, answered,
  is_payload, awaited, registered, register_done, run_join,
}

-- A wait that begins has at most `rounds` ticks, by its timeout, before that comes; each tick uses
-- one up, and a poll makes them no more.
pub record KeepsTime {W : Type 0} (io : World W) (left : W → ℕ) (rounds : ℕ → ℕ) : Type 0 where
  pub begins : (timeout : ℕ) (w : W) → left (io.start timeout w) ≤ rounds timeout
  pub polls : (id : String) (w : W) → left (io.poll id w).1 ≤ left w
  pub ticks : (w : W) → (io.select w).0 ≡ false → left (io.select w).1 < left w

-- Two runs of one function on different fuel end alike.
abbrev pub Ends {ℓ} : {A : Type ℓ} → Option A → Option A → Type ℓ
Ends {A = A} a b = (r : A) × (a ≡ some r) × (b ≡ some r)

and_then-Ends {ℓ κ} :
    {A : Type ℓ} {B : Type κ} {a a' : Option A} {k k' : A → Option B}
    → Ends a a'
    → ((r : A) → Ends (k r) (k' r))
    → Ends (and_then a k) (and_then a' k')
and_then-Ends (r, e, e') h = rw (e, e') (h r)

if-Ends {ℓ} :
    {A : Type ℓ} {a a' b b' : Option A} (c : Bool)
    → Ends a a'
    → Ends b b'
    → Ends (if c then a else b) (if c then a' else b')
if-Ends true x y = x
if-Ends false x y = y

module _ {W : Type 0} (io : World W) (left : W → ℕ) (rounds : ℕ → ℕ)
    (time : KeepsTime io left rounds) where
  wait_loop-Ends :
      (test : PollResult → Bool) (id : String) (fuel fuel' : ℕ) (w : W)
      → left w < fuel
      → left w < fuel'
      → Ends (wait_loop io test id fuel w) (wait_loop io test id fuel' w)
  unfolding wait_loop
  wait_loop-Ends test id zero fuel' w h h' = absurd (omega arith)
  wait_loop-Ends test id (suc fuel) zero w h h' = absurd (omega arith)
  wait_loop-Ends test id (suc fuel) (suc fuel') w h h' =
      let w1 = (io.poll id w).1 in
      let w2 = (io.select w1).1 in
      let less = time.polls id w in
      elim (Option-cases (accepts test (poll_result (io.poll id w).0))) [
        | inr (res, good) ↦ ((some res, w1), ground (arith, good), ground (arith, good))
        | inl bad ↦ elim (Bool-cases (io.select w1).0) [
          | inl out ↦ ((none, w2), ground (arith, bad, out), ground (arith, bad, out))
          | inr tick ↦
              let fewer = time.ticks w1 tick in
              let (r, e, e') = wait_loop-Ends test id fuel fuel' w2 (omega arith) (omega arith) in
              (r, ground (arith, bad, tick, e), ground (arith, bad, tick, e'))
        ]
      ]

  module _ (cfg : RunConfig) (fuel fuel' : ℕ) (enough : rounds (timeout_of cfg) < fuel)
      (enough' : rounds (timeout_of cfg) < fuel') where
    wait-Ends :
        (test : PollResult → Bool) (id : String) (w : W)
        → Ends
            (wait_loop io test id fuel (io.start (timeout_of cfg) w))
            (wait_loop io test id fuel' (io.start (timeout_of cfg) w))
    wait-Ends test id w =
        let b = time.begins (timeout_of cfg) w in
        wait_loop-Ends test id fuel fuel' (io.start (timeout_of cfg) w) (omega arith) (omega arith)

    confirm-Ends :
        (id : String) (steps : List String) (w : W)
        → Ends (confirm io cfg fuel id steps w) (confirm io cfg fuel' id steps w)
    unfolding confirm wait_joined
    confirm-Ends id steps w = and_then-Ends (wait-Ends _ id _) (λ r. (_, refl, refl))

    agent_done-Ends :
        (id : String) (steps : List String) (failed : Option String) (w : W)
        → Ends
            (agent_done io cfg fuel id steps failed w)
            (agent_done io cfg fuel' id steps failed w)
    unfolding agent_done
    agent_done-Ends id steps (some e) w = (_, refl, refl)
    agent_done-Ends id steps none w = confirm-Ends id steps w

    install_agent-Ends :
        (id : String) (res : PollResult) (steps : List String) (w : W)
        → Ends
            (install_agent io cfg fuel id res steps w)
            (install_agent io cfg fuel' id res steps w)
    unfolding install_agent
    install_agent-Ends id res steps w = agent_done-Ends id steps _ _

    toolkit_done-Ends :
        (id : String) (res : PollResult) (steps : List String) (failed : Option String) (w : W)
        → Ends
            (toolkit_done io cfg fuel id res steps failed w)
            (toolkit_done io cfg fuel' id res steps failed w)
    unfolding toolkit_done
    toolkit_done-Ends id res steps (some e) w = (_, refl, refl)
    toolkit_done-Ends id res steps none w = install_agent-Ends id res _ w

    install_toolkit-Ends :
        (id : String) (res : PollResult) (steps : List String) (w : W)
        → Ends
            (install_toolkit io cfg fuel id res steps w)
            (install_toolkit io cfg fuel' id res steps w)
    unfolding install_toolkit
    install_toolkit-Ends id res steps w =
        if-Ends cfg.need_toolkit (toolkit_done-Ends id res steps _ _)
          (if-Ends _ (install_agent-Ends id res _ _) (install_agent-Ends id res steps w))

    answered-Ends :
        (id : String) (res : PollResult) (w : W)
        → Ends (answered io cfg fuel id res w) (answered io cfg fuel' id res w)
    unfolding answered
    answered-Ends id res w =
        if-Ends (str_eq res.status "denied") (_, refl, refl)
          (if-Ends (str_eq res.status "joined") (_, refl, refl)
            (if-Ends (not (is_payload res)) (_, refl, refl) (install_toolkit-Ends id res _ w)))

    awaited-Ends :
        (id : String) (found : Option PollResult) (w : W)
        → Ends (awaited io cfg fuel id found w) (awaited io cfg fuel' id found w)
    unfolding awaited
    awaited-Ends id none w = (_, refl, refl)
    awaited-Ends id (some res) w = answered-Ends id res w

    register_done-Ends :
        (r : Result String String) (w : W)
        → Ends (register_done io cfg fuel r w) (register_done io cfg fuel' r w)
    unfolding register_done registered wait_approval
    register_done-Ends (err e) w = (_, refl, refl)
    register_done-Ends (ok id) w = and_then-Ends (wait-Ends _ id _) (λ r. awaited-Ends id r.0 r.1)

-- RunJoin returns, whatever the control panel, the disk and the installers answer: with more fuel
-- than a wait has ticks it has a result, and that is the same for every such fuel.
pub run_join-Ends :
    {W : Type 0} (io : World W) (left : W → ℕ) (rounds : ℕ → ℕ) (cfg : RunConfig) (fuel fuel' : ℕ)
    (w : W)
    → KeepsTime io left rounds
    → rounds (timeout_of cfg) < fuel
    → rounds (timeout_of cfg) < fuel'
    → Ends (run_join io cfg fuel w) (run_join io cfg fuel' w)
unfolding run_join
run_join-Ends io left rounds cfg fuel fuel' w time enough enough' =
    register_done-Ends io left rounds time cfg fuel fuel' enough enough' _ _
