-- ===== src/Trace/Recorder/Runs.antt =====
-- A recorded run as a step relation: the run emits, the recorder collects, items are enqueued, the
-- header is stored, and the storage worker reports what it saved, in any order.
use agentsimjs.Prelude.{
  ℕ, ◌+◌, ◌≤◌, ◌≡◌, refl, sym, ap, ◌∙◌, String, Bool, true, List, [], ◌∷◌, ◌++◌, Outcome, length,
  take, take-append, length-append, arith, if_cases, left_by, some, if◌then◌else◌,
}
use text.Mathlib.Text.{◌==◌ as str_eq}
use agentsimjs.Trace.{TraceRecord, RecordInput}
use agentsimjs.Trace.Buffer.{new_buffer, mark_persisted, hold_unpersisted}
use agentsimjs.Trace.Buffer.Retention.{
  Traced, Op, pushes, marks, apply, apply-IsTrace, apply-Retains, emitted-push, persisted-push,
  persisted-mark_persisted,
}
use agentsimjs.Trace.Handover.{PersistedHead, FlowControl, stale, shift_saved}
use agentsimjs.Trace.Recorder.{
  RunRecorder, RecorderError, Rules, new_recorder, dispatch, dispatch_all, collect, flush,
  header_stored, enqueue, persisted, take_panel,
}
use agentsimjs.Trace.Recorder.Effects.{batched, dispatch_all-Dispatched, kept}
use agentsimjs.Trace.Recorder.NoLoss.{
  IsFaithful, collect-CaughtUp, flush-IsFaithful, update_waiting-IsFaithful,
}

-- A run: its recorder (which holds the buffer), and all that was emitted.
pub record Run (B I : Type 0) : Type 0 where
  pub recorder : RunRecorder B I
  pub emitted : List (TraceRecord B)

module _ {B I : Type 0} where
  abbrev pub traced : Run B I → Traced B
  traced s = record { buffer = s.recorder.buffer; emitted = s.emitted }

  -- The run pushes a record into the buffer; one that is refused leaves everything as it was.
  unfoldable pub emit : ℕ → RecordInput B → String → Run B I → Run B I
  unfolding apply
  emit wall r source s =
      let t = apply (pushes wall r source) (traced s) in
      record { recorder = record s.recorder { buffer = t.buffer }; emitted = t.emitted }

  abbrev pub enqueued : (I → ℕ) → I → RunRecorder B I → RunRecorder B I
  enqueued item_bytes i r = left_by (enqueue item_bytes i r)

module _ {B I : Type 0} (rules : Rules B) (item_bytes : I → ℕ) where
  pub data Step (s : Run B I) : Run B I → Type 0 where
    emits : (wall : ℕ) (r : RecordInput B) (source : String) → Step s (emit wall r source s)
    collects :
        (tick sim_time_s : ℕ)
        → Step s (record s { recorder = collect rules tick sim_time_s s.recorder })
    stores_header : Step s (record s { recorder = header_stored s.recorder })
    enqueues : (i : I) → Step s (record s { recorder = enqueued item_bytes i s.recorder })
    -- The storage worker reports no more than what it was sent.
    saves :
        (head : PersistedHead)
        → head.through ≤ s.recorder.through
        → Step s (record s { recorder = persisted head s.recorder })
    reads_panel : Step s (record s { recorder = (take_panel s.recorder).1 })

  pub data Reach (s : Run B I) : Run B I → Type 0 where
    here : Reach s s
    next : {t u : Run B I} → Reach s t → Step t u → Reach s u

  module _ (t0 : ℕ) where
    abbrev FaithfulTo : List (TraceRecord B) → RunRecorder B I → Type 0
    FaithfulTo emitted r = IsFaithful rules t0 r emitted

    abbrev pub Faithful : Run B I → Type 0
    Faithful s = IsFaithful rules t0 s.recorder s.emitted

    emit-Faithful :
        (wall : ℕ) (r : RecordInput B) (source : String) (s : Run B I)
        → Faithful s
        → Faithful (emit wall r source s)
    unfolding emit
    emit-Faithful wall r source s v =
        let o : Op B = pushes wall r source in
        let kept_back = apply-Retains 0 t0 o (traced s) v.trace v.holding in
        let (extra, more) = emitted-push wall r source (traced s) in
        let same = persisted-push wall r source (traced s) in
        let n = s.recorder.cursor in
        record {
          trace = apply-IsTrace 0 t0 o (traced s) v.trace;
          holding = kept_back.held;
          cursor_in = omega (arith, ap length more, length-append s.emitted extra, v.cursor_in);
          through_in = v.through_in;
          persisted_in = omega (arith, same, v.persisted_in);
          cached = omega (arith, kept_back.kept, same, v.persisted_in, v.cached);
          content =
              v.content
              ∙ ap (kept rules)
                  (sym (take-append n s.emitted extra v.cursor_in) ∙ ap (take n) (sym more));
        }

    -- Only the buffer, the cursor, the covered number and the records sent or held matter.
    unmoved :
        (r r' : RunRecorder B I) (emitted : List (TraceRecord B))
        → r'.buffer ≡ r.buffer
        → r'.cursor ≡ r.cursor
        → r'.through ≡ r.through
        → r'.held ≡ r.held
        → batched r'.sent ≡ batched r.sent
        → IsFaithful rules t0 r emitted
        → IsFaithful rules t0 r' emitted
    unmoved r r' emitted eb ec et eh es v = record {
      trace = rw eb v.trace;
      holding = rw eb v.holding;
      cursor_in = rw ec v.cursor_in;
      through_in = rw (ec, et) v.through_in;
      persisted_in = rw (ec, eb) v.persisted_in;
      cached = rw (ec, eb) v.cached;
      content = rw (es, eh, ec) v.content;
    }

    dispatch-Faithful :
        (i : I) (r : RunRecorder B I) (emitted : List (TraceRecord B))
        → IsFaithful rules t0 r emitted
        → IsFaithful rules t0 (dispatch i r) emitted
    dispatch-Faithful i r emitted v =
        let d = dispatch_all-Dispatched (i ∷ []) r in
        unfold dispatch_all in
        unmoved r (dispatch i r) emitted d.buffer d.cursor d.through d.held d.batches v

    persisted-Faithful :
        (head : PersistedHead) (r : RunRecorder B I) (emitted : List (TraceRecord B))
        → head.through ≤ r.through
        → IsFaithful rules t0 r emitted
        → IsFaithful rules t0 (persisted head r) emitted
    unfolding persisted
    persisted-Faithful head r emitted h v =
        let s : Traced B = record { buffer = r.buffer; emitted = emitted } in
        let kept_back = apply-Retains 0 t0 (marks head.through) s v.trace v.holding in
        let same = persisted-mark_persisted head.through r.buffer in
        if_cases (FaithfulTo emitted) (str_eq head.run_id r.buffer.run_id)
          (λ _.
            if_cases (FaithfulTo emitted) (stale head r.persisted_at) (λ _. v)
              (λ _.
                let r' : RunRecorder B I = record r {
                  in_flight = shift_saved head.through r.in_flight;
                  buffer = mark_persisted head.through r.buffer;
                  persisted_at = some head;
                } in
                update_waiting-IsFaithful rules t0 r' emitted (
                  unfold apply in
                  record {
                    trace = apply-IsTrace 0 t0 (marks head.through) s v.trace;
                    holding = kept_back.held;
                    cursor_in = v.cursor_in;
                    through_in = v.through_in;
                    persisted_in = omega (arith, same, v.persisted_in, v.through_in, h);
                    cached =
                        omega
                          (arith, kept_back.kept, same, v.persisted_in, v.cached, v.through_in, h);
                    content = v.content;
                  })))
          (λ _. v)

    header_stored-Faithful :
        (r : RunRecorder B I) (emitted : List (TraceRecord B))
        → IsFaithful rules t0 r emitted
        → IsFaithful rules t0 (header_stored r) emitted
    unfolding header_stored
    header_stored-Faithful r emitted v =
        let r' : RunRecorder B I = record r { header = true; outbox = [] } in
        let d = dispatch_all-Dispatched r.outbox r' in
        let v' : IsFaithful rules t0 (dispatch_all r.outbox r') emitted =
          unmoved r (dispatch_all r.outbox r') emitted d.buffer d.cursor d.through d.held d.batches
            v in
        if_cases (FaithfulTo emitted) r.header (λ _. v)
          (λ _.
            update_waiting-IsFaithful rules t0 (flush (dispatch_all r.outbox r')) emitted
              (flush-IsFaithful rules t0 (dispatch_all r.outbox r') emitted v'))

    enqueued-Faithful :
        (i : I) (r : RunRecorder B I) (emitted : List (TraceRecord B))
        → IsFaithful rules t0 r emitted
        → IsFaithful rules t0 (enqueued item_bytes i r) emitted
    unfolding enqueue
    enqueued-Faithful i r emitted v =
        let r' : RunRecorder B I = record r { held_bytes = r.held_bytes + item_bytes i } in
        let q : RunRecorder B I =
          if r.header then dispatch i r' else record r' { outbox = r'.outbox ++ i ∷ [] } in
        let same : IsFaithful rules t0 r' emitted =
          unmoved r r' emitted refl refl refl refl refl v in
        if_cases
          (λ (o : Outcome RecorderError Unit (RunRecorder B I)). FaithfulTo emitted (left_by o))
          r.has_item_channel
          (λ _. update_waiting-IsFaithful rules t0 q emitted (
            if_cases (FaithfulTo emitted) r.header (λ _. dispatch-Faithful i r' emitted same)
              (λ _.
                unmoved r' (record r' { outbox = r'.outbox ++ i ∷ [] }) emitted refl refl refl refl
                  refl same)))
          (λ _. v)

    Step-Faithful : {s t : Run B I} → Step s t → Faithful s → Faithful t
    Step-Faithful {s} (emits wall r source) v = emit-Faithful wall r source s v
    Step-Faithful {s} (collects tick sim_time_s) v =
        (collect-CaughtUp rules t0 tick sim_time_s s.recorder s.emitted v).0
    Step-Faithful {s} stores_header v = header_stored-Faithful s.recorder s.emitted v
    Step-Faithful {s} (enqueues i) v = enqueued-Faithful i s.recorder s.emitted v
    Step-Faithful {s} (saves head h) v = persisted-Faithful head s.recorder s.emitted h v
    Step-Faithful {s} reads_panel v =
        unfold take_panel in
        unmoved s.recorder (record s.recorder { panel = [] }) s.emitted refl refl refl refl refl v

    -- In every reachable state of a recorded run, what was sent and what is held is exactly what the
    -- profile keeps of the records before the cursor, in order, and the cache still has the rest.
    pub Reach-Faithful : {s t : Run B I} → Reach s t → Faithful s → Faithful t
    Reach-Faithful here v = v
    Reach-Faithful (next r st) v = Step-Faithful st (Reach-Faithful r v)

  abbrev pub new_run : String → ℕ → FlowControl → Bool → Run B I
  new_run run_id capacity flow has_item_channel = record {
    recorder = new_recorder (new_buffer run_id capacity) flow has_item_channel 0;
    emitted = [];
  }

  new-Faithful :
      (run_id : String) (capacity : ℕ) (flow : FlowControl) (has_item_channel : Bool)
      → Faithful 0 (new_run run_id capacity flow has_item_channel)
  unfolding new_recorder new_buffer hold_unpersisted
  new-Faithful run_id capacity flow has_item_channel = record {
    trace = record {
      counted = omega arith;
      window = refl;
      fits = omega arith;
      numbered = tt;
      rising = tt;
      latest = refl;
      saved = omega arith;
    };
    holding = refl;
    cursor_in = omega arith;
    through_in = omega arith;
    persisted_in = omega arith;
    cached = omega arith;
    content = refl;
  }

  -- A run recorded from its start, after any steps in any order: once the header is stored, a
  -- `collect` leaves sent exactly what the profile keeps of everything that the run emitted, in the
  -- order of emission, nothing twice and nothing missing.
  pub recorded_run_complete :
      (run_id : String) (capacity : ℕ) (flow : FlowControl) (has_item_channel : Bool) {t : Run B I}
      (tick sim_time_s : ℕ)
      → Reach (new_run run_id capacity flow has_item_channel) t
      → t.recorder.header ≡ true
      → batched (collect rules tick sim_time_s t.recorder).sent ≡ kept rules t.emitted
  recorded_run_complete run_id capacity flow has_item_channel {t} tick sim_time_s steps stored =
      (collect-CaughtUp rules 0 tick sim_time_s t.recorder t.emitted
          (Reach-Faithful 0 steps (new-Faithful run_id capacity flow has_item_channel))).2
        stored
