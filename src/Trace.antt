-- ===== src/Trace.antt =====
-- packages/trace/src: the trace of a run in memory (trace-buffer.ts) and the recorder that hands it
-- to the storage worker (recorder.ts). What a record says besides its place in the run (subject,
-- kind, detail, payload) is an abstract body; times are whole numbers in a fixed unit.
pub mod Buffer
pub mod Handover
pub mod Recorder
mod Tests
use agentsimjs.Prelude.{ℕ, String}

-- The text `<run>#<seq>`.
pub record RecordId : Type 0 where
  pub run : String
  pub number : ℕ

pub record TraceRecord (B : Type 0) : Type 0 where
  pub id : RecordId
  pub run_id : String
  pub seq : ℕ
  pub sim_time : ℕ
  pub wall_time : ℕ
  pub source : String
  pub body : B

-- What a component appends: a record without its id, run, number, wall time and source.
pub record RecordInput (B : Type 0) : Type 0 where
  pub sim_time : ℕ
  pub body : B
