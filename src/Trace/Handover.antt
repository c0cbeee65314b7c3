-- ===== src/Trace/Handover.antt =====
-- packages/trace/src/recorder.ts: what a recorder hands over and what it is told, the marks of its
-- flow control, and how far the saved part of a run is behind the live one. The number -1 of
-- "nothing yet" is avoided as in the buffer: `through` is the number after the highest one covered.
use agentsimjs.Prelude.{
  ℕ, ◌+◌, ◌-◌, String, Bool, true, false, not, ◌&&◌, ◌||◌, List, [], ◌∷◌, Option, none, some, ltb,
  leb, ◌==◌, if◌then◌else◌,
}
use agentsimjs.Trace.{TraceRecord}

pub record RecorderBatch (B : Type 0) : Type 0 where
  pub run_id : String
  pub records : List (TraceRecord B)
  pub through : ℕ
  pub tick : ℕ
  pub sim_time_s : ℕ

pub record PersistedHead : Type 0 where
  pub run_id : String
  pub through : ℕ
  pub tick : ℕ
  pub sim_time_s : ℕ

pub record SimHead : Type 0 where
  pub tick : ℕ
  pub sim_time_s : ℕ

pub record FlowControl : Type 0 where
  pub high_records : ℕ
  pub low_records : ℕ
  pub high_bytes : ℕ
  pub low_bytes : ℕ

abbrev pub default_flow_control : FlowControl
default_flow_control = record {
  high_records = 50_000;
  low_records = 25_000;
  high_bytes = 33_554_432;
  low_bytes = 16_777_216;
}

pub record Backlog : Type 0 where
  pub records : ℕ
  pub bytes : ℕ

pub record InFlight : Type 0 where
  pub through : ℕ
  pub records : ℕ
  pub bytes : ℕ

pub data Sent (B I : Type 0) : Type 0 where
  batch : RecorderBatch B → Sent B I
  item : I → Sent B I

pub data GapState : Type 0 where
  none_yet behind saved : GapState

pub record Gap : Type 0 where
  pub state : GapState
  pub ticks : ℕ
  pub sim_time_s : ℕ

unfoldable pub gap_of : SimHead → Option SimHead → Gap
gap_of sim none = record { state = none_yet; ticks = sim.tick; sim_time_s = sim.sim_time_s }
gap_of sim (some persisted) =
    let ticks = sim.tick - persisted.tick in
    if ticks == 0 then record { state = saved; ticks = 0; sim_time_s = 0 } else record {
      state = behind;
      ticks = ticks;
      sim_time_s = sim.sim_time_s - persisted.sim_time_s;
    }

abbrev pub sum_records : List InFlight → ℕ → ℕ
sum_records [] n = n
sum_records (b ∷ bs) n = sum_records bs (n + b.records)

abbrev pub sum_bytes : List InFlight → ℕ → ℕ
sum_bytes [] n = n
sum_bytes (b ∷ bs) n = sum_bytes bs (n + b.bytes)

-- The marks of the flow control: wait from a high mark on until both low marks are reached.
unfoldable pub next_waiting : FlowControl → Backlog → Bool → Bool
next_waiting f b false = leb f.high_records b.records || leb f.high_bytes b.bytes
next_waiting f b true = not (leb b.records f.low_records && leb b.bytes f.low_bytes)

abbrev pub touched : SimHead → Option PersistedHead → Option PersistedHead
touched sim none = none
touched sim (some p) = some (record p { tick = sim.tick; sim_time_s = sim.sim_time_s })

-- `while (inFlight.length > 0 && inFlight[0].throughSeq <= head.throughSeq) inFlight.shift()`
unfoldable pub shift_saved : ℕ → List InFlight → List InFlight
shift_saved through [] = []
shift_saved through (b ∷ bs) =
    let rest = shift_saved through bs in if leb b.through through then rest else b ∷ bs

unfoldable pub stale : PersistedHead → Option PersistedHead → Bool
stale head none = false
stale head (some p) = ltb head.tick p.tick

-- The number after the last of a list of records, or `n` for none.
abbrev pub after_last : {B : Type 0} → ℕ → List (TraceRecord B) → ℕ
after_last n [] = n
after_last n (x ∷ xs) = after_last (x.seq + 1) xs
