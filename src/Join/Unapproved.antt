-- ===== src/Join/Unapproved.antt =====
-- Where no poll answers a whole payload, the engine of control-panel/internal/join/runner.go calls
-- none of its installers.
use ldndrc.Base.{
  ℕ, concat, [], ◌∷◌, zero, suc, ◌≡◌, refl, ◌∙◌, ap, String, Bool, false, not, Option, none, some,
  Result, ok, err, arith, str_eq, Bool-cases, Option-cases, Result-cases, inl, inr,
}
use ldndrc.Join.Discover.{addr}
use ldndrc.Join.Engine.{
  Fingerprint, PollResult, World, RunConfig, register_result, poll_result, accepts, wait_loop,
  wait_approval, write_local, maybe_upload,
}
use ldndrc.Join.Runner.{
  fingerprint_of, timeout_of, is_payload, fail_with_bundle, done_with_bundle, answered, awaited,
  registered, register_done, run_join, and_then,
}

-- The world with other installers
abbrev pub with_installers :
    {W : Type 0}
    → World W
    → (String → String → String → W → Option String × W)
    → (W → Option String × W)
    → World W
with_installers io agent toolkit = record io { agent = agent; toolkit = toolkit }

-- An invariant of the state that the calls before an approval keep, and under which no poll is
-- answered with a whole payload
pub record Withholds {W : Type 0} (io : World W) (Inv : W → Type 0) : Type 0 where
  pub registers : (fp : Fingerprint) (w : W) → Inv w → Inv (io.register fp w).1
  pub polls : (id : String) (w : W) → Inv w → Inv (io.poll id w).1
  pub starts : (t : ℕ) (w : W) → Inv w → Inv (io.start t w)
  pub selects : (w : W) → Inv w → Inv (io.select w).1
  pub emits : (line : String) (w : W) → Inv w → Inv (io.emit line w)
  pub withholds :
      (id : String) (w : W) (res : PollResult)
      → Inv w
      → poll_result (io.poll id w).0 ≡ ok res
      → is_payload res ≡ false

module _ {W : Type 0} (io : World W) (cfg : RunConfig) (Inv : W → Type 0)
    (agent : String → String → String → W → Option String × W) (toolkit : W → Option String × W)
    (closed : Withholds io Inv) where
  abbrev other : World W
  other = with_installers io agent toolkit

  wait_loop-same :
      (test : PollResult → Bool) (id : String) (fuel : ℕ) (w : W)
      → wait_loop other test id fuel w ≡ wait_loop io test id fuel w
  unfolding wait_loop
  wait_loop-same test id zero w = refl
  wait_loop-same test id (suc fuel) w =
      let next = (io.select (io.poll id w).1).1 in
      elim (Option-cases (accepts test (poll_result (io.poll id w).0))) [
        | inr (res, e) ↦ ground (arith, e)
        | inl e ↦ ground (arith, e, wait_loop-same test id fuel next)
      ]

  -- What a wait finds is an answer of a poll.
  wait_loop-empty :
      (test : PollResult → Bool) (id : String) (fuel : ℕ) (w w' : W) (res : PollResult)
      → Inv w
      → wait_loop io test id fuel w ≡ some (some res, w')
      → is_payload res ≡ false
  unfolding wait_loop
  wait_loop-empty test id zero w w' res inv h = absurd (ground arith)
  wait_loop-empty test id (suc fuel) w w' res inv h =
      let reply = (io.poll id w).0 in
      let w1 = (io.poll id w).1 in
      let kept = closed.selects w1 (closed.polls id w inv) in
      elim (Option-cases (accepts test (poll_result reply))) [
        | inr (res', e) ↦ elim (Result-cases (poll_result reply)) [
          | inr (m, bad) ↦ absurd (ground (arith, bad, e))
          | inl (res'', good) ↦
              ground
                (arith, good, e, h, closed.withholds id w res'' inv good, Bool-cases (test res''))
        ]
        | inl e ↦ elim (Bool-cases (io.select w1).0) [
          | inl over ↦ absurd (ground (arith, e, over, h))
          | inr more ↦
              wait_loop-empty test id fuel (io.select w1).1 w' res kept (ground (arith, e, more, h))
        ]
      ]

  answered-same :
      (fuel : ℕ) (id : String) (res : PollResult) (w : W)
      → is_payload res ≡ false
      → answered other cfg fuel id res w ≡ answered io cfg fuel id res w
  unfolding answered fail_with_bundle done_with_bundle write_local maybe_upload
  answered-same fuel id res w bare = ground (arith, bare)

  awaited-same :
      (fuel : ℕ) (id : String) (r : Option (Option PollResult × W))
      → ((res : PollResult) (w : W) → r ≡ some (some res, w) → is_payload res ≡ false)
      → and_then r (λ f. awaited other cfg fuel id f.0 f.1)
        ≡ and_then r (λ f. awaited io cfg fuel id f.0 f.1)
  unfolding awaited fail_with_bundle write_local
  awaited-same fuel id none bare = refl
  awaited-same fuel id (some (none, w)) bare = refl
  awaited-same fuel id (some (some res, w)) bare = answered-same fuel id res w (bare res w refl)

  registered-same :
      (fuel : ℕ) (id : String) (w : W)
      → Inv w
      → registered other cfg fuel id w ≡ registered io cfg fuel id w
  unfolding registered wait_approval
  registered-same fuel id w inv =
      let lines = io.emit (concat ("registered as " ∷ id ∷ [])) w in
      let line =
        concat
          ("waiting for operator approval at " ∷ cfg.control_url ∷ " (polling every 5s)" ∷ []) in
      let w0 = io.start (timeout_of cfg) (io.emit line lines) in
      let test = λ (res : PollResult). not (str_eq res.status "pending") in
      let kept =
        closed.starts (timeout_of cfg) (io.emit line lines)
          (closed.emits line lines (closed.emits _ w inv)) in
      ap (λ r. and_then r (λ f. awaited other cfg fuel id f.0 f.1)) (wait_loop-same test id fuel w0)
      ∙ awaited-same fuel id (wait_loop io test id fuel w0)
          (λ res w' e. wait_loop-empty test id fuel w0 w' res kept e)

  register_done-same :
      (fuel : ℕ) (r : Result String String) (w : W)
      → Inv w
      → register_done other cfg fuel r w ≡ register_done io cfg fuel r w
  unfolding register_done fail_with_bundle write_local
  register_done-same fuel (ok id) w inv = registered-same fuel id w inv
  register_done-same fuel (err e) w inv = refl

  -- The engine does the same with any installers.
  pub run_join-Withholds :
      (fuel : ℕ) (w : W) → Inv w → run_join other cfg fuel w ≡ run_join io cfg fuel w
  unfolding run_join
  run_join-Withholds fuel w inv =
      let line = concat ("registering with master " ∷ addr cfg.master ∷ []) in
      let reply = io.register (fingerprint_of cfg) (io.emit line w) in
      register_done-same fuel (register_result reply.0) reply.1
        (closed.registers (fingerprint_of cfg) (io.emit line w) (closed.emits line w inv))
