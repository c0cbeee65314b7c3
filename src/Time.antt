-- ===== src/Time.antt =====
-- packages/core/src/time: the fixed-step clock (clock.ts), the scheduler and the two drivers that
-- pace it against wall time (scheduler.ts). A whole number stands for each time: `dt_s` is a tick
-- in some fixed unit, wall time is in whole milliseconds, and speeds are whole ticks per second.
pub mod Lockstep
pub mod Realtime
pub mod Contiguous
mod Tests
use agentsimjs.Prelude.{
  ℕ, zero, suc, ◌+◌, ◌-◌, ◌*◌, ◌/◌, Result, ok, err, Outcome, returned, threw, settle, ltb, ◌==◌,
  min, Bool, List, [], ◌∷◌, ◌++◌, if◌then◌else◌,
}

pub data RangeError : Type 0 where
  bad_dt : ℕ → RangeError

pub record Clock : Type 0 where
  pub t : ℕ
  pub dt_s : ℕ

pub new_clock : ℕ → Result RangeError Clock
new_clock dt_s = if dt_s == 0 then err (bad_dt dt_s) else ok (record { t = 0; dt_s = dt_s })

pub sim_time_s : Clock → ℕ
sim_time_s c = c.t * c.dt_s

pub advance_clock : Clock → Clock
advance_clock c = record c { t = c.t + 1 }

pub set_tick : Clock → ℕ → Clock
set_tick c tick = record c { t = tick }

pub record TickContext : Type 0 where
  pub tick : ℕ
  pub sim_time_s : ℕ
  pub dt_s : ℕ

-- What the scheduler advances: a step may throw, and leaves a world either way.
abbrev pub Steppable : Type 0 → Type 0 → Type 0
Steppable E W = TickContext → W → Outcome E Unit W

pub record Scheduler (W : Type 0) : Type 0 where
  pub clock : Clock
  pub world : W

pub record DegradationEvent : Type 0 where
  pub tick : ℕ
  pub sim_time_s : ℕ
  pub skipped_ticks : ℕ
  pub max_ticks_per_advance : ℕ

abbrev pub context : Clock → TickContext
context c = record { tick = c.t; sim_time_s = sim_time_s c; dt_s = c.dt_s }

module _ {E W : Type 0} (world : Steppable E W) where
  pub step : Scheduler W → Outcome E ℕ (Scheduler W)
  unfolding advance_clock set_tick
  step s =
      let c = advance_clock s.clock in
      settle (world (context c) s.world) (λ _ w. returned c.t (record { clock = c; world = w }))
        (λ e w. threw e (record { clock = set_tick c (c.t - 1); world = w }))

  -- `for (let i = 0; i < n; i++) this.step()`
  pub run : ℕ → Scheduler W → Outcome E Unit (Scheduler W)
  run zero s = returned tt s
  run (suc n) s = settle (step s) (λ _ s'. run n s') threw

-- The fields that the two drivers share. Neither reads a clock: wall time is an argument.
pub record Pacing : Type 0 where
  pub origin_ms : ℕ
  pub executed_since_start : ℕ
  pub ticks_per_second : ℕ
  pub max_ticks_per_advance : ℕ

pub start : ℕ → Pacing → Pacing
start wall_now_ms p = record p { origin_ms = wall_now_ms; executed_since_start = 0 }

pub set_speed : ℕ → Pacing → Pacing
set_speed ticks_per_second p = record p { ticks_per_second = ticks_per_second }

-- Where wall time lies before the origin the source's value is negative; both drivers then owe
-- nothing, as they do at 0.
pub due_since_start : ℕ → Pacing → ℕ
due_since_start wall_now_ms p = (wall_now_ms - p.origin_ms) * p.ticks_per_second / 1000

pub backlog : ℕ → Pacing → ℕ
backlog wall_now_ms p = due_since_start wall_now_ms p - p.executed_since_start

pub record Driver (W : Type 0) : Type 0 where
  pub pacing : Pacing
  pub scheduler : Scheduler W
  -- What `onDegradation` was called with, oldest first; a lockstep driver reports nothing.
  pub degradations : List DegradationEvent

module _ {E W : Type 0} (world : Steppable E W) where
  -- `while (n < due && ready()) { step(); n++ }`, on the rounds left.
  pub batch : (W → Bool) → ℕ → ℕ → Scheduler W → Outcome E ℕ (Scheduler W)
  batch ready zero n s = returned n s
  batch ready (suc left) n s =
      if ready s.world
      then settle (step world s) (λ _ s'. batch ready left (n + 1) s') threw
      else returned n s

  -- LockstepDriver.advance. A throw leaves the pacing as it was.
  pub advance_lockstep : (W → Bool) → ℕ → Driver W → Outcome E ℕ (Driver W)
  unfolding backlog due_since_start
  advance_lockstep ready wall_now_ms d =
      let due = min (backlog wall_now_ms d.pacing) d.pacing.max_ticks_per_advance in
      settle (batch ready due 0 d.scheduler)
        (λ n s. returned n (record d {
          pacing = record d.pacing { executed_since_start = d.pacing.executed_since_start + n };
          scheduler = s;
        }))
        (λ e s. threw e (record d { scheduler = s }))

  overrun : ℕ → ℕ → Driver W → Scheduler W → Driver W
  overrun n skipped d s =
      if ltb 0 skipped
      then record {
        pacing = record d.pacing {
          executed_since_start = d.pacing.executed_since_start + n + skipped;
        };
        scheduler = s;
        degradations =
            d.degradations
            ++ record {
              tick = s.clock.t;
              sim_time_s = sim_time_s s.clock;
              skipped_ticks = skipped;
              max_ticks_per_advance = d.pacing.max_ticks_per_advance;
            }
              ∷ [];
      }
      else record d {
        pacing = record d.pacing { executed_since_start = d.pacing.executed_since_start + n };
        scheduler = s;
      }

  -- RealtimeDriver.advance: what is due beyond the cap is dropped and reported.
  pub advance_realtime : ℕ → Driver W → Outcome E ℕ (Driver W)
  unfolding overrun
  advance_realtime wall_now_ms d =
      let due = backlog wall_now_ms d.pacing in
      let n = min due d.pacing.max_ticks_per_advance in
      if due == 0
      then returned 0 d
      else settle (run world n d.scheduler) (λ _ s. returned n (overrun n (due - n) d s))
          (λ e s. threw e (record d { scheduler = s }))
