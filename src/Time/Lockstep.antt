-- ===== src/Time/Lockstep.antt =====
-- The lockstep driver: it executes at most the ticks owed, keeps the rest owed, and catches up.
use agentsimjs.Prelude.{
  ℕ, zero, suc, ◌+◌, ◌-◌, ◌*◌, ◌≤◌, ◌<◌, ◌≡◌, refl, Outcome, returned, threw, Ensures,
  Ensures-settle, settle, Ensures-mono, Bool, true, min, arith, inl, inr, Bool-cases,
}
use agentsimjs.Time.{
  TickContext, Steppable, Scheduler, Driver, context, advance_clock, set_tick, step,
  due_since_start, backlog, batch, advance_lockstep,
}

module _ {E W : Type 0} (world : Steppable E W) where
  -- A step returns the next tick, or throws and leaves the clock where it was.
  pub step-Ensures :
      (s : Scheduler W)
      → Ensures
          (λ n s'. (n ≡ s.clock.t + 1) × (s'.clock.t ≡ s.clock.t + 1))
          (λ _ s'. s'.clock.t ≡ s.clock.t)
          (step world s)
  unfolding step advance_clock set_tick
  step-Ensures s = ground arith

  pub batch-Ensures :
      (ready : W → Bool) (k n : ℕ) (s : Scheduler W)
      → Ensures
          (λ m s'. (n ≤ m) × (m ≤ n + k) × (s'.clock.t + n ≡ s.clock.t + m))
          (λ _ s'. (s.clock.t ≤ s'.clock.t) × (s'.clock.t < s.clock.t + k))
          (batch world ready k n s)
  unfolding batch
  batch-Ensures ready zero n s = omega arith
  batch-Ensures ready (suc k) n s = elim (Bool-cases (ready s.world)) [
    | inl go ↦ rw go (
        Ensures-settle _ _ (step world s) _ threw (step-Ensures s)
          (λ m s' h.
            Ensures-mono _ _ (batch world ready k (n + 1) s') (batch-Ensures ready k (n + 1) s')
              (λ m' t p. omega arith) (λ e t p. omega arith))
          (λ e s' h. omega arith))
    | inr stop ↦ rw stop (omega arith)
  ]

module _ {E W : Type 0} (world : Steppable E W) (ready : W → Bool) where
  -- Whatever the world does: a call that returns `n` has run exactly `n` ticks, at most the cap and
  -- at most the backlog, and the rest of the backlog stays owed; a call that throws has run fewer
  -- ticks than were owed, and counts none of them as executed.
  pub advance_lockstep_accounts :
      (wall : ℕ) (d : Driver W)
      → Ensures
          (λ n d'.
            (n ≤ d.pacing.max_ticks_per_advance)
            × (d'.scheduler.clock.t ≡ d.scheduler.clock.t + n)
            × (backlog wall d'.pacing + n ≡ backlog wall d.pacing)
            × (d'.degradations ≡ d.degradations))
          (λ _ d'.
            (d.scheduler.clock.t ≤ d'.scheduler.clock.t)
            × (d'.scheduler.clock.t < d.scheduler.clock.t + backlog wall d.pacing)
            × (d'.pacing ≡ d.pacing))
          (advance_lockstep world ready wall d)
  unfolding advance_lockstep backlog due_since_start
  advance_lockstep_accounts wall d =
      Ensures-settle _ _ (batch world ready _ 0 d.scheduler) _ _
        (batch-Ensures world ready (min (backlog wall d.pacing) d.pacing.max_ticks_per_advance) 0
          d.scheduler)
        (λ n s h. (omega arith, omega arith, omega arith, refl))
        (λ e s h. (omega arith, omega arith, refl))

abbrev pub NeverThrows : {E W : Type 0} → Steppable E W → Type 0
NeverThrows {W} world = (c : TickContext) (w : W) → (w' : W) × (world c w ≡ returned tt w')

module _ {E W : Type 0} (world : Steppable E W) (ready : W → Bool) where
  -- `advance` called `k` times at one wall time, as a host does while a backlog is left.
  pub calls : ℕ → ℕ → Driver W → Outcome E Unit (Driver W)
  calls zero wall d = returned tt d
  calls (suc k) wall d =
      settle (advance_lockstep world ready wall d) (λ _ d'. calls k wall d') threw

module _ {E W : Type 0} (world : Steppable E W) (ready : W → Bool) (total : NeverThrows world)
    (willing : (w : W) → ready w ≡ true) where
  step_returns :
      (s : Scheduler W)
      → (s' : Scheduler W) × (step world s ≡ returned (s.clock.t + 1) s')
        × (s'.clock.t ≡ s.clock.t + 1)
  unfolding step advance_clock
  step_returns s =
      let c = advance_clock s.clock in
      let (w, e) = total (context c) s.world in (record { clock = c; world = w }, rw e, refl)

  batch_returns :
      (k n : ℕ) (s : Scheduler W)
      → (s' : Scheduler W) × (batch world ready k n s ≡ returned (n + k) s')
        × (s'.clock.t ≡ s.clock.t + k)
  unfolding batch
  batch_returns zero n s = (s, ground arith, omega arith)
  batch_returns (suc k) n s =
      let (s', e, t) = step_returns s in
      let (s'', e', t') = batch_returns k (n + 1) s' in
      (s'', rw (willing s.world, e) (ground (arith, e')), omega arith)

  advance_returns :
      (wall : ℕ) (d : Driver W)
      → (d' : Driver W) × (advance_lockstep world ready wall d
          ≡ returned (min (backlog wall d.pacing) d.pacing.max_ticks_per_advance) d')
        × (d'.scheduler.clock.t
            ≡ d.scheduler.clock.t + min (backlog wall d.pacing) d.pacing.max_ticks_per_advance)
        × (backlog wall d'.pacing ≡ backlog wall d.pacing - d.pacing.max_ticks_per_advance)
        × (d'.pacing.max_ticks_per_advance ≡ d.pacing.max_ticks_per_advance)
  unfolding advance_lockstep backlog due_since_start
  advance_returns wall d =
      let due = min (backlog wall d.pacing) d.pacing.max_ticks_per_advance in
      let (s, e, t) = batch_returns due 0 d.scheduler in
      (
        record d {
          pacing = record d.pacing { executed_since_start = d.pacing.executed_since_start + due };
          scheduler = s;
        },
        rw e (ground arith),
        t,
        omega arith,
        refl,
      )

  -- A world that is always ready and never throws: once the calls can hold the backlog, every tick
  -- that was due has been executed, and nothing is owed.
  pub calls_catch_up :
      (k wall : ℕ) (d : Driver W)
      → backlog wall d.pacing ≤ k * d.pacing.max_ticks_per_advance
      → (d' : Driver W) × (calls world ready k wall d ≡ returned tt d')
        × (backlog wall d'.pacing ≡ 0)
        × (d'.scheduler.clock.t ≡ d.scheduler.clock.t + backlog wall d.pacing)
  unfolding calls
  calls_catch_up zero wall d h = (d, refl, omega arith, omega arith)
  calls_catch_up (suc k) wall d h =
      let (d', e, t, b, c) = advance_returns wall d in
      let (d'', e', b', t') = calls_catch_up k wall d' (rw (b, c) (omega arith)) in
      (d'', rw e e', b', omega arith)
