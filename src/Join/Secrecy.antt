-- ===== src/Join/Secrecy.antt =====
-- What a run of the engine depends on: the same run in a world that differs in the token, the
-- agent's and the toolkit's installer.
use ldndrc.Base.{
  ℕ, zero, ap, concat, [], ◌++◌, arith, suc, ◌==◌, ◌≡◌, refl, inl, inr, String, Bool, true, false,
  not, Option, none, some, Result, ok, err, List, ◌∷◌, str_eq, if◌then◌else◌, Bool-cases,
  Option-cases,
}
use ldndrc.Join.Engine.{
  PollResult, World, RunConfig, Exchange, poll_result, accepts, wait_loop, wait_approval,
  wait_joined, write_local, maybe_upload,
}
use ldndrc.Join.Runner.{
  and_then, fail_with_bundle, done_with_bundle, confirmed, confirm, agent_done, install_agent,
  toolkit_done, install_toolkit, is_payload, answered, awaited, registered, register_done, run_join,
}

-- An answer with its token replaced
abbrev pub relabel : (String → String) → PollResult → PollResult
relabel f res = record res { k3s_token = f res.k3s_token }

abbrev relabel_option : (String → String) → Option PollResult → Option PollResult
relabel_option f none = none
relabel_option f (some res) = some (relabel f res)

abbrev relabel_body : (String → String) → Result String PollResult → Result String PollResult
relabel_body f (err e) = err e
relabel_body f (ok res) = ok (relabel f res)

abbrev pub relabel_exchange : (String → String) → Exchange PollResult → Exchange PollResult
relabel_exchange f (err e) = err e
relabel_exchange f (ok (code, body)) = ok (code, relabel_body f body)

abbrev relabel_found :
    {W : Type 0}
    → (String → String)
    → Option (Option PollResult × W)
    → Option (Option PollResult × W)
relabel_found f none = none
relabel_found f (some (found, w)) = some (relabel_option f found, w)

-- The world with other answers and other installers
abbrev pub replaced :
    {W : Type 0}
    → World W
    → (String → W → Exchange PollResult × W)
    → (String → String → String → W → Option String × W)
    → (W → Option String × W)
    → World W
replaced io poll agent toolkit = record io { poll = poll; agent = agent; toolkit = toolkit }

poll_result-relabel :
    (f : String → String) (reply : Exchange PollResult)
    → poll_result (relabel_exchange f reply) ≡ relabel_body f (poll_result reply)
unfolding poll_result
poll_result-relabel f (err e) = refl
poll_result-relabel f (ok (code, body)) = elim (Bool-cases (code == 200)) [
  | inl good ↦ rw good refl
  | inr bad ↦ rw bad refl
]

accepts-relabel :
    (f : String → String) (test : PollResult → Bool)
    → ((res : PollResult) → test (relabel f res) ≡ test res)
    → (r : Result String PollResult)
    → accepts test (relabel_body f r) ≡ relabel_option f (accepts test r)
accepts-relabel f test same (err e) = refl
accepts-relabel f test same (ok res) = elim (Bool-cases (test res)) [
  | inl good ↦ rw (same res, good) refl
  | inr bad ↦ rw (same res, bad) refl
]

if-same {ℓ} :
    {A : Type ℓ} {a a' b b' : A} (c : Bool)
    → (c ≡ true → a ≡ a')
    → (c ≡ false → b ≡ b')
    → (if c then a else b) ≡ (if c then a' else b')
if-same true x y = x refl
if-same false x y = y refl

-- Two worlds that differ in the token, by `f`, and in what the installers do where they are not
-- called: the toolkit's without consent, the agent's without the whole payload.
pub record Differs {W : Type 0} (io : World W) (f : String → String)
    (poll : String → W → Exchange PollResult × W)
    (agent : String → String → String → W → Option String × W) (toolkit : W → Option String × W)
    (need_toolkit : Bool) : Type 0 where
  pub keeps_empty : (t : String) → str_eq (f t) "" ≡ str_eq t ""
  pub polls :
      (id : String) (w : W) → poll id w ≡ (relabel_exchange f (io.poll id w).0, (io.poll id w).1)
  pub agents :
      (res : PollResult) (w : W)
      → is_payload res ≡ true
      → agent res.k3s_url (f res.k3s_token) res.node_name w
        ≡ io.agent res.k3s_url res.k3s_token res.node_name w
  pub toolkits : need_toolkit ≡ true → (w : W) → toolkit w ≡ io.toolkit w

module _ {W : Type 0} (io : World W) (cfg : RunConfig) (f : String → String)
    (poll : String → W → Exchange PollResult × W)
    (agent : String → String → String → W → Option String × W) (toolkit : W → Option String × W)
    (differs : Differs io f poll agent toolkit cfg.need_toolkit) where
  accepts-poll :
      (test : PollResult → Bool)
      → ((res : PollResult) → test (relabel f res) ≡ test res)
      → (reply : Exchange PollResult)
      → accepts test (poll_result (relabel_exchange f reply))
        ≡ relabel_option f (accepts test (poll_result reply))
  accepts-poll test same reply =
      rw (poll_result-relabel f reply) (accepts-relabel f test same (poll_result reply))

  wait_loop-relabel :
      (test : PollResult → Bool)
      → ((res : PollResult) → test (relabel f res) ≡ test res)
      → (id : String) (fuel : ℕ) (w : W)
      → wait_loop (replaced io poll agent toolkit) test id fuel w
        ≡ relabel_found f (wait_loop io test id fuel w)
  unfolding wait_loop
  wait_loop-relabel test same id zero w = refl
  wait_loop-relabel test same id (suc fuel) w =
      let seen = accepts-poll test same (io.poll id w).0 in
      let asked = differs.polls id w in
      elim (Option-cases (accepts test (poll_result (io.poll id w).0))) [
        | inr (res, good) ↦ ground (arith, seen, asked, good)
        | inl bad ↦ elim (Bool-cases (io.select (io.poll id w).1).0) [
          | inl out ↦ ground (arith, seen, asked, bad, out)
          | inr tick ↦ ground (
            arith,
            seen,
            asked,
            bad,
            tick,
            wait_loop-relabel test same id fuel (io.select (io.poll id w).1).1,
          )
        ]
      ]

  -- What follows a wait alike, follows it alike in both worlds.
  and_then-relabel {κ} :
      {B : Type κ} (test : PollResult → Bool) (id : String) (fuel : ℕ) (w : W)
      (k k' : Option PollResult × W → Option B)
      → ((res : PollResult) → test (relabel f res) ≡ test res)
      → ((found : Option PollResult) (w : W) → k' (relabel_option f found, w) ≡ k (found, w))
      → and_then (wait_loop (replaced io poll agent toolkit) test id fuel w) k'
        ≡ and_then (wait_loop io test id fuel w) k
  and_then-relabel test id fuel w k k' same same' =
      rw (wait_loop-relabel test same id fuel w)
        (elim (Option-cases (wait_loop io test id fuel w)) [
          | inl h ↦ rw h refl
          | inr ((found, w), h) ↦ rw h (same' found w)
        ])

  confirmed-relabel :
      (id : String) (steps : List String) (found : Option PollResult) (w : W)
      → confirmed (replaced io poll agent toolkit) cfg id steps (relabel_option f found) w
        ≡ confirmed io cfg id steps found w
  unfolding confirmed fail_with_bundle done_with_bundle write_local maybe_upload
  confirmed-relabel id steps none w = refl
  confirmed-relabel id steps (some res) w = refl

  confirm-replaced :
      (fuel : ℕ) (id : String) (steps : List String) (w : W)
      → confirm (replaced io poll agent toolkit) cfg fuel id steps w
        ≡ confirm io cfg fuel id steps w
  unfolding confirm wait_joined
  confirm-replaced fuel id steps w =
      and_then-relabel _ id fuel _ _ _ (λ _. refl)
        (λ found w'. ap some (
          confirmed-relabel id (steps ++ "agent installed, waiting for Ready + label" ∷ []) found
            w'))

  agent_done-replaced :
      (fuel : ℕ) (id : String) (steps : List String) (failed : Option String) (w : W)
      → agent_done (replaced io poll agent toolkit) cfg fuel id steps failed w
        ≡ agent_done io cfg fuel id steps failed w
  unfolding agent_done fail_with_bundle write_local
  agent_done-replaced fuel id steps (some e) w = refl
  agent_done-replaced fuel id steps none w = confirm-replaced fuel id steps w

  install_agent-replaced :
      (fuel : ℕ) (id : String) (res : PollResult) (steps : List String) (w : W)
      → is_payload res ≡ true
      → install_agent (replaced io poll agent toolkit) cfg fuel id (relabel f res) steps w
        ≡ install_agent io cfg fuel id res steps w
  unfolding install_agent
  install_agent-replaced fuel id res steps w full =
      rw
        (differs.agents res (io.emit (concat ("installing k3s agent as " ∷ res.node_name ∷ [])) w)
          full)
        (agent_done-replaced fuel id steps _ _)

  toolkit_done-replaced :
      (fuel : ℕ) (id : String) (res : PollResult) (steps : List String) (failed : Option String)
      (w : W)
      → is_payload res ≡ true
      → toolkit_done (replaced io poll agent toolkit) cfg fuel id (relabel f res) steps failed w
        ≡ toolkit_done io cfg fuel id res steps failed w
  unfolding toolkit_done fail_with_bundle write_local
  toolkit_done-replaced fuel id res steps (some e) w full = refl
  toolkit_done-replaced fuel id res steps none w full = install_agent-replaced fuel id res _ w full

  install_toolkit-replaced :
      (fuel : ℕ) (id : String) (res : PollResult) (steps : List String) (w : W)
      → is_payload res ≡ true
      → install_toolkit (replaced io poll agent toolkit) cfg fuel id (relabel f res) steps w
        ≡ install_toolkit io cfg fuel id res steps w
  unfolding install_toolkit
  install_toolkit-replaced fuel id res steps w full =
      if-same cfg.need_toolkit
        (λ need.
          rw (differs.toolkits need (io.emit "installing NVIDIA container toolkit (consented)" w))
            (toolkit_done-replaced fuel id res steps _ _ full))
        (λ _.
          if-same (not (str_eq cfg.skip_note "")) (λ _. install_agent-replaced fuel id res _ _ full)
            (λ _. install_agent-replaced fuel id res steps w full))

  answered-replaced :
      (fuel : ℕ) (id : String) (res : PollResult) (w : W)
      → answered (replaced io poll agent toolkit) cfg fuel id (relabel f res) w
        ≡ answered io cfg fuel id res w
  unfolding answered fail_with_bundle done_with_bundle write_local maybe_upload
  answered-replaced fuel id res w = elim (Bool-cases (str_eq res.status "denied")) [
    | inl denied ↦ rw denied refl
    | inr waits ↦ elim (Bool-cases (str_eq res.status "joined")) [
      | inl joined ↦ rw (waits, joined) refl
      | inr new ↦ elim (Bool-cases (is_payload res)) [
        | inl full ↦
            rw (waits, new, differs.keeps_empty res.k3s_token, full)
              (install_toolkit-replaced fuel id res _ w full)
        | inr part ↦ rw (waits, new, differs.keeps_empty res.k3s_token, part) refl
      ]
    ]
  ]

  awaited-replaced :
      (fuel : ℕ) (id : String) (found : Option PollResult) (w : W)
      → awaited (replaced io poll agent toolkit) cfg fuel id (relabel_option f found) w
        ≡ awaited io cfg fuel id found w
  unfolding awaited fail_with_bundle write_local
  awaited-replaced fuel id none w = refl
  awaited-replaced fuel id (some res) w = answered-replaced fuel id res w

  register_done-replaced :
      (fuel : ℕ) (r : Result String String) (w : W)
      → register_done (replaced io poll agent toolkit) cfg fuel r w ≡ register_done io cfg fuel r w
  unfolding register_done registered wait_approval fail_with_bundle write_local
  register_done-replaced fuel (err e) w = refl
  register_done-replaced fuel (ok id) w =
      and_then-relabel _ id fuel _ _ _ (λ _. refl) (λ found w'. awaited-replaced fuel id found w')

-- The whole run, its lines, its files, its upload, its calls and its message, is the same in two
-- worlds that differ in the join token, up to what the agent's installer is told, in the agent's
-- installer where the answer lacks the token, the URL or the node's name, and in the toolkit's
-- installer where the consent is missing. So the token is handed to the agent's installer alone,
-- which never starts on half a payload, and no toolkit is installed without consent.
pub token_unseen :
    {W : Type 0} (io : World W) (cfg : RunConfig) (f : String → String)
    (poll : String → W → Exchange PollResult × W)
    (agent : String → String → String → W → Option String × W) (toolkit : W → Option String × W)
    (fuel : ℕ) (w : W)
    → Differs io f poll agent toolkit cfg.need_toolkit
    → run_join (replaced io poll agent toolkit) cfg fuel w ≡ run_join io cfg fuel w
unfolding run_join
token_unseen io cfg f poll agent toolkit fuel w differs =
    register_done-replaced io cfg f poll agent toolkit differs fuel _ _
