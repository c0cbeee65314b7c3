-- ===== src/Time/Realtime.antt =====
-- The realtime driver: what it cannot execute is dropped, and every dropped tick is reported.
use agentsimjs.Prelude.{
  ℕ, zero, suc, ◌+◌, ◌-◌, ◌≤◌, ◌<◌, ◌≡◌, refl, Outcome, returned, threw, settle, Ensures,
  Ensures-settle, Ensures-mono, List, [], ◌∷◌, ◌++◌, min, arith, inl, inr, Bool-cases, ◌==◌, ltb,
  if◌then◌else◌,
}
use agentsimjs.Time.Lockstep.{step-Ensures}
use agentsimjs.Time.{
  Steppable, Scheduler, Driver, DegradationEvent, sim_time_s, step, run, due_since_start, backlog,
  overrun, advance_realtime,
}

-- All ticks that the events report as skipped.
abbrev pub skipped_total : List DegradationEvent → ℕ
skipped_total [] = 0
skipped_total (e ∷ es) = e.skipped_ticks + skipped_total es

skipped_total-append :
    (es fs : List DegradationEvent) → skipped_total (es ++ fs) ≡ skipped_total es + skipped_total fs
skipped_total-append [] fs = omega arith
skipped_total-append (e ∷ es) fs = omega (arith, skipped_total-append es fs)

module _ {E W : Type 0} (world : Steppable E W) where
  -- `run n` executes exactly `n` ticks, or throws having executed fewer.
  pub run-Ensures :
      (n : ℕ) (s : Scheduler W)
      → Ensures
          (λ _ s'. s'.clock.t ≡ s.clock.t + n)
          (λ _ s'. (s.clock.t ≤ s'.clock.t) × (s'.clock.t < s.clock.t + n))
          (run world n s)
  unfolding run
  run-Ensures zero s = omega arith
  run-Ensures (suc n) s =
      Ensures-settle _ _ (step world s) _ threw (step-Ensures world s)
        (λ m s' h.
          Ensures-mono _ _ (run world n s') (run-Ensures n s') (λ m' t p. omega arith)
            (λ e t p. omega arith))
        (λ e s' h. omega arith)

  -- A call that returns has executed what was due up to the cap, counts all that was due as executed
  -- and so owes nothing, and has reported the excess as skipped, in one event at the tick reached;
  -- without an excess it reports nothing. A call that throws has executed fewer ticks than that,
  -- counts none of them and reports nothing.
  pub advance_realtime_accounts :
      (wall : ℕ) (d : Driver W)
      → Ensures
          (λ n d'.
            (n ≡ min (backlog wall d.pacing) d.pacing.max_ticks_per_advance)
            × (d'.scheduler.clock.t ≡ d.scheduler.clock.t + n)
            × (d'.pacing ≡ record d.pacing {
              executed_since_start = d.pacing.executed_since_start + backlog wall d.pacing;
            })
            × (backlog wall d'.pacing ≡ 0)
            × (d'.degradations ≡ (
                if ltb n (backlog wall d.pacing)
                then d.degradations
                  ++ record {
                    tick = d'.scheduler.clock.t;
                    sim_time_s = sim_time_s d'.scheduler.clock;
                    skipped_ticks = backlog wall d.pacing - n;
                    max_ticks_per_advance = d.pacing.max_ticks_per_advance;
                  }
                    ∷ []
                else d.degradations)))
          (λ _ d'.
            (d.scheduler.clock.t ≤ d'.scheduler.clock.t)
            × (d'.scheduler.clock.t
                < d.scheduler.clock.t + min (backlog wall d.pacing) d.pacing.max_ticks_per_advance)
            × (d'.degradations ≡ d.degradations)
            × (d'.pacing ≡ d.pacing))
          (advance_realtime world wall d)
  unfolding advance_realtime backlog due_since_start
  advance_realtime_accounts wall d = elim (Bool-cases (backlog wall d.pacing == 0)) [
    | inl idle ↦ rw idle (ground arith)
    | inr late ↦ rw late (
        Ensures-settle _ _ (run world _ d.scheduler) _ _ (run-Ensures _ d.scheduler)
          (λ n s h. ground arith) (λ e s h. (h.0, h.1, refl, refl)))
  ]

  -- `advance` at each wall time in turn.
  unfoldable pub drive : List ℕ → Driver W → Outcome E Unit (Driver W)
  drive [] d = returned tt d
  drive (wall ∷ walls) d = settle (advance_realtime world wall d) (λ _ d'. drive walls d') threw

  -- The sum of what a driver counts as executed since `d`, and of what it ran and reported skipped.
  abbrev counted : Driver W → Driver W → ℕ
  counted d d' = d'.pacing.executed_since_start + d.scheduler.clock.t + skipped_total d.degradations

  abbrev run_or_reported : Driver W → Driver W → ℕ
  run_or_reported d d' =
      d.pacing.executed_since_start + d'.scheduler.clock.t + skipped_total d'.degradations

  -- Ticks counted as executed are ticks executed and ticks reported skipped, under the same cap.
  abbrev pub Progress : Driver W → Driver W → Type 0
  Progress d d' =
      (counted d d' ≡ run_or_reported d d')
      × (d'.pacing.max_ticks_per_advance ≡ d.pacing.max_ticks_per_advance)

  -- After a throw, fewer ticks than the cap have run without being counted.
  abbrev pub Uncounted : Driver W → Driver W → Type 0
  Uncounted d d' =
      (counted d d' ≤ run_or_reported d d')
      × (run_or_reported d d' < counted d d' + d.pacing.max_ticks_per_advance)

  overrun-Progress :
      (n skipped : ℕ) (d : Driver W) (s : Scheduler W)
      → s.clock.t ≡ d.scheduler.clock.t + n
      → Progress d (overrun world n skipped d s)
  unfolding overrun
  overrun-Progress n skipped d s h = elim (Bool-cases (ltb 0 skipped)) [
    | inl excess ↦ rw excess (omega (arith, skipped_total-append))
    | inr none_left ↦ rw none_left (omega arith)
  ]

  advance_realtime-Progress :
      (wall : ℕ) (d : Driver W)
      → Ensures (λ _ d'. Progress d d') (λ _ d'. Uncounted d d') (advance_realtime world wall d)
  unfolding advance_realtime
  advance_realtime-Progress wall d = elim (Bool-cases (backlog wall d.pacing == 0)) [
    | inl idle ↦ rw idle (omega arith)
    | inr late ↦ rw late (
        Ensures-settle _ _ (run world _ d.scheduler) _ _ (run-Ensures _ d.scheduler)
          (λ _ s h. overrun-Progress _ _ d s h) (λ e s h. omega arith))
  ]

  -- Over any sequence of wall times, while no step throws, what the pacing counts as executed is
  -- exactly what the world ran plus what the events report as skipped. Where a step throws, which
  -- ends the sequence, the ticks that the last call ran before it are not counted: there are fewer of
  -- them than the cap, and all else is counted exactly.
  pub drive-Progress :
      (walls : List ℕ) (d : Driver W)
      → Ensures (λ _ d'. Progress d d') (λ _ d'. Uncounted d d') (drive walls d)
  unfolding drive
  drive-Progress [] d = omega arith
  drive-Progress (wall ∷ walls) d =
      Ensures-settle _ _ (advance_realtime world wall d) _ threw (advance_realtime-Progress wall d)
        (λ n d' h.
          Ensures-mono _ _ (drive walls d') (drive-Progress walls d') (λ m d'' p. omega arith)
            (λ e t p. omega arith))
        (λ e d' h. h)
