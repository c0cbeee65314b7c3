-- ===== src/Time/Contiguous.antt =====
-- In every mode the world sees the ticks 1, 2, 3, … with no gap, whatever calls the host makes and
-- wherever the world throws.
use agentsimjs.Prelude.{
  ℕ, zero, suc, ◌+◌, ◌≡◌, refl, Outcome, returned, threw, settle, Ensures, Ensures-settle, left_by,
  Bool, List, [], ◌∷◌, ◌++◌, arith, inl, inr, Bool-cases, ◌==◌,
}
use agentsimjs.Time.{
  TickContext, Steppable, Scheduler, backlog, overrun, Driver, advance_clock, set_tick, step, run,
  batch, start, set_speed, advance_lockstep, advance_realtime,
}

-- The world with a log of the ticks that it took.
abbrev pub logged : {E W : Type 0} → Steppable E W → Steppable E (W × List ℕ)
logged world c (w, ticks) =
    settle (world c w) (λ _ w'. returned tt (w', ticks ++ c.tick ∷ []))
      (λ e w'. threw e (w', ticks))

-- 1, 2, …, n
abbrev pub ticks_to : ℕ → List ℕ
ticks_to zero = []
ticks_to (suc n) = ticks_to n ++ suc n ∷ []

anything : {E A S : Type 0} (r : Outcome E A S) → Ensures (λ _ _. Unit {0}) (λ _ _. Unit {0}) r
anything (returned _ _) = tt
anything (threw _ _) = tt

-- What a host does with a driver of either kind.
pub data Call : Type 0 where
  starts speeds advances_lockstep advances_realtime : ℕ → Call

module _ {E W : Type 0} (world : Steppable E W) (ready : W × List ℕ → Bool) where
  pub perform : Call → Driver (W × List ℕ) → Driver (W × List ℕ)
  perform (starts wall) d = record d { pacing = start wall d.pacing }
  perform (speeds s) d = record d { pacing = set_speed s d.pacing }
  perform (advances_lockstep wall) d = left_by (advance_lockstep (logged world) ready wall d)
  perform (advances_realtime wall) d = left_by (advance_realtime (logged world) wall d)

  pub perform_all : List Call → Driver (W × List ℕ) → Driver (W × List ℕ)
  perform_all [] d = d
  perform_all (c ∷ cs) d = perform_all cs (perform c d)

  abbrev pub IsContiguous : Scheduler (W × List ℕ) → Type 0
  IsContiguous s = s.world.1 ≡ ticks_to s.clock.t

  -- A call that keeps the log contiguous, whether it returns or throws.
  abbrev Keeps : {A : Type 0} → Outcome E A (Scheduler (W × List ℕ)) → Type 0
  Keeps = Ensures (λ _ s. IsContiguous s) (λ _ s. IsContiguous s)

  abbrev KeepsDriver : {A : Type 0} → Outcome E A (Driver (W × List ℕ)) → Type 0
  KeepsDriver = Ensures (λ _ d. IsContiguous d.scheduler) (λ _ d. IsContiguous d.scheduler)

  logged-Ensures :
      (c : TickContext) (w : W) (ticks : List ℕ)
      → Ensures (λ _ p. p.1 ≡ ticks ++ c.tick ∷ []) (λ _ p. p.1 ≡ ticks) (logged world c (w, ticks))
  logged-Ensures c w ticks =
      Ensures-settle {P = λ _ _. Unit {0}} {Q = λ _ _. Unit {0}} _ _ (world c w) _ _
        (anything (world c w)) (λ _ w' _. refl) (λ e w' _. refl)

  step-IsContiguous : (s : Scheduler (W × List ℕ)) → IsContiguous s → Keeps (step (logged world) s)
  unfolding step advance_clock set_tick
  step-IsContiguous s h =
      Ensures-settle _ _ (logged world _ s.world) _ _ (logged-Ensures _ s.world.0 s.world.1)
        (λ _ w e. rw (e, h) (ground arith)) (λ _ w e. rw (e, h) (ground arith))

  run-IsContiguous :
      (n : ℕ) (s : Scheduler (W × List ℕ)) → IsContiguous s → Keeps (run (logged world) n s)
  unfolding run
  run-IsContiguous zero s h = h
  run-IsContiguous (suc n) s h =
      Ensures-settle _ _ (step (logged world) s) _ threw (step-IsContiguous s h)
        (λ _ s' h'. run-IsContiguous n s' h') (λ _ s' h'. h')

  batch-IsContiguous :
      (k n : ℕ) (s : Scheduler (W × List ℕ))
      → IsContiguous s
      → Keeps (batch (logged world) ready k n s)
  unfolding batch
  batch-IsContiguous zero n s h = h
  batch-IsContiguous (suc k) n s h = elim (Bool-cases (ready s.world)) [
    | inl go ↦ rw go (
        Ensures-settle _ _ (step (logged world) s) _ threw (step-IsContiguous s h)
          (λ _ s' h'. batch-IsContiguous k (n + 1) s' h') (λ _ s' h'. h'))
    | inr stop ↦ rw stop h
  ]

  advance_lockstep-IsContiguous :
      (wall : ℕ) (d : Driver (W × List ℕ))
      → IsContiguous d.scheduler
      → KeepsDriver (advance_lockstep (logged world) ready wall d)
  unfolding advance_lockstep
  advance_lockstep-IsContiguous wall d h =
      Ensures-settle _ _ (batch (logged world) ready _ 0 d.scheduler) _ _
        (batch-IsContiguous _ 0 d.scheduler h) (λ _ s h'. h') (λ _ s h'. h')

  overrun-scheduler :
      (n skipped : ℕ) (d : Driver (W × List ℕ)) (s : Scheduler (W × List ℕ))
      → (overrun (logged world) n skipped d s).scheduler ≡ s
  unfolding overrun
  overrun-scheduler n skipped d s = ground arith

  advance_realtime-IsContiguous :
      (wall : ℕ) (d : Driver (W × List ℕ))
      → IsContiguous d.scheduler
      → KeepsDriver (advance_realtime (logged world) wall d)
  unfolding advance_realtime
  advance_realtime-IsContiguous wall d h = elim (Bool-cases (backlog wall d.pacing == 0)) [
    | inl idle ↦ rw idle h
    | inr late ↦ rw late (
        Ensures-settle _ _ (run (logged world) _ d.scheduler) _ _ (run-IsContiguous _ d.scheduler h)
          (λ _ s h'. rw overrun-scheduler h') (λ _ s h'. h'))
  ]

  left_by-IsContiguous :
      {A : Type 0} (r : Outcome E A (Driver (W × List ℕ)))
      → KeepsDriver r
      → IsContiguous (left_by r).scheduler
  left_by-IsContiguous (returned a d) h = h
  left_by-IsContiguous (threw e d) h = h

  perform-IsContiguous :
      (c : Call) (d : Driver (W × List ℕ))
      → IsContiguous d.scheduler
      → IsContiguous (perform c d).scheduler
  unfolding perform
  perform-IsContiguous (starts wall) d h = h
  perform-IsContiguous (speeds s) d h = h
  perform-IsContiguous (advances_lockstep wall) d h =
      left_by-IsContiguous _ (advance_lockstep-IsContiguous wall d h)
  perform-IsContiguous (advances_realtime wall) d h =
      left_by-IsContiguous _ (advance_realtime-IsContiguous wall d h)

  -- From a contiguous start, after any sequence of starts, speed changes and advances of either
  -- driver, whether or not steps threw on the way, the ticks that the world took are exactly
  -- 1, 2, …, up to the clock's tick.
  pub perform_all-IsContiguous :
      (cs : List Call) (d : Driver (W × List ℕ))
      → IsContiguous d.scheduler
      → IsContiguous (perform_all cs d).scheduler
  unfolding perform_all
  perform_all-IsContiguous [] d h = h
  perform_all-IsContiguous (c ∷ cs) d h =
      perform_all-IsContiguous cs (perform c d) (perform-IsContiguous c d h)
