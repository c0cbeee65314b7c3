-- ===== src/Time/Tests.antt =====
-- The drivers at concrete inputs, the first as in scheduler.test.ts.
use agentsimjs.Prelude.{
  ℕ, ◌+◌, ◌≤◌, ◌≡◌, refl, Bool, true, Outcome, returned, List, [], ◌∷◌, arith, ◌==◌,
}
use agentsimjs.Time.Lockstep.{NeverThrows, advance_lockstep_accounts, calls, calls_catch_up}
use agentsimjs.Time.Realtime.{advance_realtime_accounts, drive, drive-Progress}
use agentsimjs.Time.Contiguous.{
  Call, starts, speeds, advances_lockstep, advances_realtime, perform_all, ticks_to,
  perform_all-IsContiguous,
}
use agentsimjs.Time.{
  Steppable, Pacing, Driver, DegradationEvent, step, run, batch, backlog, due_since_start,
  advance_lockstep, advance_realtime, sim_time_s,
}

-- A world that counts its steps, and one that refuses its third.
abbrev counting : Steppable (Unit {0}) ℕ
counting c w = returned tt (w + 1)

abbrev fragile : Steppable (Unit {0}) ℕ
fragile c w = elim (w == 2) [ true ↦ Outcome.threw tt w | _ ↦ returned tt (w + 1) ]

abbrev always {ℓ} : {A : Type ℓ} → A → Bool
always _ = true

abbrev at_tick : ℕ → Driver ℕ
at_tick cap = record {
  pacing = record {
    origin_ms = 0;
    executed_since_start = 0;
    ticks_per_second = 10;
    max_ticks_per_advance = cap;
  };
  scheduler = record { clock = record { t = 0; dt_s = 100 }; world = 0 };
  degradations = [];
}

abbrev at_tick_logged : ℕ → Driver (ℕ × List ℕ)
at_tick_logged cap = record {
  pacing = (at_tick cap).pacing;
  scheduler = record { clock = record { t = 0; dt_s = 100 }; world = (0, []) };
  degradations = [];
}

abbrev late_report : DegradationEvent
late_report = record { tick = 4; sim_time_s = 400; skipped_ticks = 24; max_ticks_per_advance = 4 }

abbrev caught_up : Pacing
caught_up = record (at_tick 4).pacing { executed_since_start = 28 }

counting-NeverThrows : NeverThrows counting
counting-NeverThrows c w = (w + 1, refl)

advance_lockstep_accounts_example :
    (8 ≤ 8)
    × (◌≡◌ {A = ℕ} 8 8)
    × (◌≡◌ {A = ℕ} (92 + 8) 100)
    × (◌≡◌ {A = List DegradationEvent} [] [])
unfolding advance_lockstep batch step
advance_lockstep_accounts_example = advance_lockstep_accounts counting always 10_000 (at_tick 8)

calls_catch_up_example :
    (d : Driver ℕ) × (calls counting always 4 3000 (at_tick 8) ≡ returned tt d)
    × (backlog 3000 d.pacing ≡ 0)
    × (d.scheduler.clock.t ≡ 0 + backlog 3000 (at_tick 8).pacing)
unfolding backlog due_since_start
calls_catch_up_example =
    calls_catch_up counting always counting-NeverThrows (λ w. refl) 4 3000 (at_tick 8) (omega arith)

advance_realtime_accounts_example :
    (◌≡◌ {A = ℕ} 4 4)
    × (◌≡◌ {A = ℕ} 4 4)
    × (◌≡◌ {A = Pacing} caught_up caught_up)
    × (◌≡◌ {A = ℕ} 0 0)
    × (◌≡◌ {A = List DegradationEvent} (late_report ∷ []) (late_report ∷ []))
unfolding advance_realtime run step sim_time_s backlog due_since_start
advance_realtime_accounts_example = advance_realtime_accounts counting 2800 (at_tick 4)

drive-Progress_example : (◌≡◌ {A = ℕ} (29 + 0 + 0) (0 + 5 + 24)) × (◌≡◌ {A = ℕ} 4 4)
unfolding drive advance_realtime run step backlog due_since_start
drive-Progress_example = drive-Progress counting (2800 ∷ 2900 ∷ []) (at_tick 4)

abbrev session : List Call
session =
    advances_lockstep 150
    ∷ advances_lockstep 900
    ∷ starts 1000
    ∷ speeds 20
    ∷ advances_realtime 1500
    ∷ []

perform_all-IsContiguous_example :
    (perform_all fragile always session (at_tick_logged 4)).scheduler.world.1
    ≡ ticks_to (perform_all fragile always session (at_tick_logged 4)).scheduler.clock.t
perform_all-IsContiguous_example =
    perform_all-IsContiguous fragile always session (at_tick_logged 4) refl
