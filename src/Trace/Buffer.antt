-- ===== src/Trace/Buffer.antt =====
-- packages/trace/src/trace-buffer.ts. The highest persisted number, -1 at first, is kept as the
-- number after it, `persisted`. A tracer is its bound source; the vocabulary of sources
-- (source.ts) and the wall clock are arguments.
pub mod Invariant
pub mod Retention
use agentsimjs.Prelude.{
  ℕ, suc, ◌+◌, ◌-◌, String, Bool, true, false, ◌&&◌, List, [], ◌∷◌, ◌++◌, Outcome, returned, threw,
  ltb, ◌==◌, min, max, length, drop, if◌then◌else◌,
}
use text.Mathlib.Text.{◌==◌ as str_eq}
use agentsimjs.Trace.{TraceRecord, RecordInput, RecordId}

pub data TraceError : Type 0 where
  invalid_source : String → TraceError
  time_went_backwards : ℕ → ℕ → TraceError
  cursor_into_used_buffer : TraceError

pub record TraceCursor : Type 0 where
  pub seq : ℕ
  pub last_sim_time : ℕ

pub record TraceBuffer (B : Type 0) : Type 0 where
  pub run_id : String
  pub capacity : ℕ
  pub records : List (TraceRecord B)
  pub seq : ℕ
  pub last_sim_time : ℕ
  pub dropped : ℕ
  pub holding : Bool
  pub persisted : ℕ
  pub tracers : List String

abbrev pub contains : List String → String → Bool
contains [] s = false
contains (x ∷ xs) s = if str_eq x s then true else contains xs s

module _ {B : Type 0} where
  unfoldable pub new_buffer : String → ℕ → TraceBuffer B
  new_buffer run_id capacity = record {
    run_id = run_id;
    capacity = capacity;
    records = [];
    seq = 0;
    last_sim_time = 0;
    dropped = 0;
    holding = false;
    persisted = 0;
    tracers = [];
  }

  -- `for(source)`: the tracer of a source, made when it is first asked for.
  unfoldable pub tracer_for :
      (String → Bool) → String → TraceBuffer B → Outcome TraceError String (TraceBuffer B)
  tracer_for is_valid_source source b =
      if contains b.tracers source
      then returned source b
      else if is_valid_source source
      then returned source (record b { tracers = source ∷ b.tracers })
      else threw (invalid_source source) b

  -- `while (records.length - n > capacity && records[n].seq <= persistedSeq) n++`
  unfoldable pub forgettable : ℕ → ℕ → List (TraceRecord B) → ℕ
  forgettable capacity persisted [] = 0
  forgettable capacity persisted (r ∷ rs) =
      if ltb capacity (length (r ∷ rs)) && ltb r.seq persisted
      then suc (forgettable capacity persisted rs)
      else 0

  unfoldable pub forget_persisted : TraceBuffer B → TraceBuffer B
  unfolding forgettable
  forget_persisted b = record b {
    records = drop (forgettable b.capacity b.persisted b.records) b.records;
  }

  -- After a push: a cache over its capacity forgets what is persisted, or the oldest record.
  unfoldable pub trim : TraceBuffer B → TraceBuffer B
  unfolding forget_persisted
  trim b =
      if ltb b.capacity (length b.records)
      then (if b.holding
          then forget_persisted b
          else record b { records = drop 1 b.records; dropped = b.dropped + 1 })
      else b

  abbrev pub stamped : ℕ → String → RecordInput B → TraceBuffer B → TraceRecord B
  stamped wall source r b = record {
    id = record { run = b.run_id; number = b.seq };
    run_id = b.run_id;
    seq = b.seq;
    sim_time = r.sim_time;
    wall_time = wall;
    source = source;
    body = r.body;
  }

  unfoldable pub push :
      ℕ
      → RecordInput B
      → String
      → TraceBuffer B
      → Outcome TraceError (TraceRecord B) (TraceBuffer B)
  unfolding trim
  push wall r source b =
      if ltb r.sim_time b.last_sim_time
      then threw (time_went_backwards r.sim_time b.last_sim_time) b
      else returned (stamped wall source r b) (
          trim (record b {
            records = b.records ++ stamped wall source r b ∷ [];
            seq = b.seq + 1;
            last_sim_time = r.sim_time;
          }))

  unfoldable pub cursor : TraceBuffer B → TraceCursor
  cursor b = record { seq = b.seq; last_sim_time = b.last_sim_time }

  -- The numbers of a cursor are naturals here, which is what the source's range check asks.
  unfoldable pub restore_cursor :
      TraceCursor → TraceBuffer B → Outcome TraceError Unit (TraceBuffer B)
  restore_cursor c b =
      if ltb 0 (length b.records)
      then threw cursor_into_used_buffer b
      else if b.seq == 0
      then returned tt (record b { seq = c.seq; last_sim_time = c.last_sim_time })
      else threw cursor_into_used_buffer b

  unfoldable pub hold_unpersisted : TraceBuffer B → TraceBuffer B
  hold_unpersisted b = record b { holding = true }

  -- `through` is the number after the highest one that is saved.
  unfoldable pub mark_persisted : ℕ → TraceBuffer B → TraceBuffer B
  unfolding forget_persisted
  mark_persisted through b =
      let b' = record b { persisted = max b.persisted (min through b.seq) } in
      if b.holding then forget_persisted b' else b'

  unfoldable pub since_first : ℕ → List (TraceRecord B) → List (TraceRecord B)
  since_first seq [] = []
  since_first seq (first ∷ rest) = drop (seq - first.seq) (first ∷ rest)

  unfoldable pub since : ℕ → TraceBuffer B → List (TraceRecord B)
  unfolding since_first
  since seq b = since_first seq b.records
