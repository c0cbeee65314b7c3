-- ===== src/Trace/Recorder/Hysteresis.antt =====
-- The flow control: after every call of the recorder the wait and the backlog agree with the marks.
use agentsimjs.Prelude.{
  ℕ, ◌+◌, ◌<◌, ◌≡◌, refl, ◌∙◌, Bool, true, false, ◌⊎◌, List, [], ◌∷◌, ◌++◌, some, Outcome, left_by,
  arith, if_cases,
}
use text.Mathlib.Text.{◌==◌ as str_eq}
use agentsimjs.Trace.{TraceRecord}
use agentsimjs.Trace.Buffer.{since, mark_persisted}
use agentsimjs.Trace.Recorder.Runs.{
  Run, Step, emits, collects, stores_header, enqueues, saves, reads_panel, Reach, here, next, emit,
  enqueued,
}
use agentsimjs.Trace.Handover.{
  after_last, Backlog, PersistedHead, FlowControl, next_waiting, stale, shift_saved,
}
use agentsimjs.Trace.Recorder.{
  RunRecorder, RecorderError, Rules, backlog, collect, header_stored, enqueue, persisted,
  update_waiting, dispatch, dispatch_all, flush, is_idle, take_fresh, take_panel,
}
use agentsimjs.Trace.Recorder.Effects.{dispatch_all-Dispatched, gather-Gathered}

-- Each low mark lies below its high mark.
abbrev pub IsHysteresis : FlowControl → Type 0
IsHysteresis f = (f.low_records < f.high_records) × (f.low_bytes < f.high_bytes)

next_waiting_bounds :
    (f : FlowControl) (b : Backlog) (w : Bool)
    → IsHysteresis f
    → (next_waiting f b w ≡ false → (b.records < f.high_records) × (b.bytes < f.high_bytes))
      × (next_waiting f b w ≡ true → (f.low_records < b.records) ⊎ (f.low_bytes < b.bytes))
unfolding next_waiting
next_waiting_bounds f b false h = (λ e. ground arith, λ e. ground arith)
next_waiting_bounds f b true h = (λ e. ground arith, λ e. ground arith)

module _ {B I : Type 0} where
  -- A run that does not wait is below both high marks; one that waits is above a low mark.
  pub record IsPaced (r : RunRecorder B I) : Type 0 where
    pub runs :
        r.is_waiting ≡ false
        → ((backlog r).records < r.flow.high_records) × ((backlog r).bytes < r.flow.high_bytes)
    pub waits :
        r.is_waiting ≡ true
        → (r.flow.low_records < (backlog r).records) ⊎ (r.flow.low_bytes < (backlog r).bytes)

  update_waiting-IsPaced : (r : RunRecorder B I) → IsHysteresis r.flow → IsPaced (update_waiting r)
  unfolding update_waiting backlog
  update_waiting-IsPaced r h =
      let both = next_waiting_bounds r.flow (backlog r) r.is_waiting h in
      record { runs = both.0; waits = both.1 }

  flow-flush : (r : RunRecorder B I) → (flush r).flow ≡ r.flow
  unfolding flush
  flow-flush r =
      if_cases (λ (q : RunRecorder B I). q.flow ≡ r.flow) (is_idle r) (λ _. refl) (λ _. refl)

  flow-take_fresh :
      (rules : Rules B) (xs : List (TraceRecord B)) (r : RunRecorder B I)
      → (take_fresh rules xs r).flow ≡ r.flow
  unfolding take_fresh
  flow-take_fresh rules [] r = refl
  flow-take_fresh rules (x ∷ xs) r =
      (gather-Gathered rules (x ∷ xs) (record r {
        cursor = after_last r.cursor (x ∷ xs);
        through = after_last r.cursor (x ∷ xs);
      })).flow

  -- The marks are in order, and the wait agrees with them.
  pub record FlowControlled (r : RunRecorder B I) : Type 0 where
    pub marks : IsHysteresis r.flow
    pub paced : IsPaced r

  updated :
      (r q : RunRecorder B I)
      → IsHysteresis r.flow
      → q.flow ≡ r.flow
      → FlowControlled (update_waiting q)
  unfolding update_waiting
  updated r q h e =
      let h' : IsHysteresis q.flow = rw e h in
      record { marks = h'; paced = update_waiting-IsPaced q h' }

  collect-FlowControlled :
      (rules : Rules B) (tick sim_time_s : ℕ) (r : RunRecorder B I)
      → FlowControlled r
      → FlowControlled (collect rules tick sim_time_s r)
  unfolding collect
  collect-FlowControlled rules tick sim_time_s r v =
      let r' : RunRecorder B I = record r {
        sim = record { tick = tick; sim_time_s = sim_time_s };
      } in
      let q = take_fresh rules (since r.cursor r.buffer) r' in
      let same = flow-take_fresh rules (since r.cursor r.buffer) r' in
      if_cases (λ (p : RunRecorder B I). FlowControlled (update_waiting p)) q.header
        (λ _. updated r (flush q) v.marks (flow-flush q ∙ same)) (λ _. updated r q v.marks same)

  header_stored-FlowControlled :
      (r : RunRecorder B I) → FlowControlled r → FlowControlled (header_stored r)
  unfolding header_stored
  header_stored-FlowControlled r v =
      let r' : RunRecorder B I = record r { header = true; outbox = [] } in
      let d = dispatch_all-Dispatched r.outbox r' in
      if_cases FlowControlled r.header (λ _. v)
        (λ _.
          updated r (flush (dispatch_all r.outbox r')) v.marks
            (flow-flush (dispatch_all r.outbox r') ∙ d.flow))

  enqueued-FlowControlled :
      (item_bytes : I → ℕ) (i : I) (r : RunRecorder B I)
      → FlowControlled r
      → FlowControlled (enqueued item_bytes i r)
  unfolding enqueue dispatch
  enqueued-FlowControlled item_bytes i r v =
      let r' : RunRecorder B I = record r { held_bytes = r.held_bytes + item_bytes i } in
      if_cases (λ (o : Outcome RecorderError Unit (RunRecorder B I)). FlowControlled (left_by o))
        r.has_item_channel
        (λ _.
          if_cases (λ (p : RunRecorder B I). FlowControlled (update_waiting p)) r.header
            (λ _. updated r (dispatch i r') v.marks refl)
            (λ _. updated r (record r' { outbox = r'.outbox ++ i ∷ [] }) v.marks refl))
        (λ _. v)

  persisted-FlowControlled :
      (head : PersistedHead) (r : RunRecorder B I)
      → FlowControlled r
      → FlowControlled (persisted head r)
  unfolding persisted
  persisted-FlowControlled head r v =
      if_cases FlowControlled (str_eq head.run_id r.buffer.run_id)
        (λ _.
          if_cases FlowControlled (stale head r.persisted_at) (λ _. v)
            (λ _.
              updated r
                (record r {
                  in_flight = shift_saved head.through r.in_flight;
                  buffer = mark_persisted head.through r.buffer;
                  persisted_at = some head;
                })
                v.marks refl))
        (λ _. v)

module _ {B I : Type 0} (rules : Rules B) (item_bytes : I → ℕ) where
  -- Along any steps of a recorded run, the run waits only while a low mark is exceeded, and goes on
  -- only while the backlog is below both high marks.
  pub Step-FlowControlled :
      {s t : Run B I}
      → Step rules item_bytes s t
      → FlowControlled s.recorder
      → FlowControlled t.recorder
  Step-FlowControlled {s} (emits wall r source) v =
      unfold emit backlog in
      record { marks = v.marks; paced = record { runs = v.paced.runs; waits = v.paced.waits } }
  Step-FlowControlled {s} (collects tick sim_time_s) v =
      collect-FlowControlled rules tick sim_time_s s.recorder v
  Step-FlowControlled {s} stores_header v = header_stored-FlowControlled s.recorder v
  Step-FlowControlled {s} (enqueues i) v = enqueued-FlowControlled item_bytes i s.recorder v
  Step-FlowControlled {s} (saves head h) v = persisted-FlowControlled head s.recorder v
  Step-FlowControlled {s} reads_panel v =
      unfold take_panel backlog in
      record { marks = v.marks; paced = record { runs = v.paced.runs; waits = v.paced.waits } }

  pub Reach-FlowControlled :
      {s t : Run B I}
      → Reach rules item_bytes s t
      → FlowControlled s.recorder
      → FlowControlled t.recorder
  Reach-FlowControlled here v = v
  Reach-FlowControlled (next r st) v = Step-FlowControlled st (Reach-FlowControlled r v)
