-- ===== src/Trace/Recorder/NoLoss.antt =====
-- No record is lost between the run and the storage worker, in whatever order the run emits, the
-- recorder collects, the header is stored and batches are reported saved.
use mathlib.Core.List.{append-nil, append_assoc}
use agentsimjs.Prelude.{
  ℕ, ◌+◌, ◌-◌, ◌≤◌, ◌≡◌, refl, sym, ap, ◌∙◌, subst, Bool, true, List, [], ◌∷◌, ◌++◌, length, take,
  drop, max, take-append-drop, take_all, length-drop, arith, if_cases, if◌then◌else◌,
}
use agentsimjs.Trace.{TraceRecord}
use agentsimjs.Trace.Buffer.{since}
use agentsimjs.Trace.Buffer.Invariant.{IsCacheOf, forgotten, since-eq-drop, Numbered, Numbered-drop}
use agentsimjs.Trace.Handover.{after_last}
use agentsimjs.Trace.Recorder.{
  RunRecorder, Rules, take_fresh, collect, flush, is_idle, update_waiting,
}
use agentsimjs.Trace.Recorder.Effects.{
  batched, batched-append, after_last-Numbered, kept, kept-append, gather-Gathered,
}

module _ {B : Type 0} (rules : Rules B) where
  Numbered-from_zero : (n : ℕ) (rs : List (TraceRecord B)) → Numbered 0 rs → Numbered n (drop n rs)
  Numbered-from_zero n rs h =
      let e : 0 + n ≡ n = omega arith in
      subst (λ k. Numbered k (drop n rs)) e (Numbered-drop 0 n rs h)

  kept_split :
      (n : ℕ) (emitted xs : List (TraceRecord B))
      → xs ≡ drop n emitted
      → kept rules (take n emitted) ++ kept rules xs ≡ kept rules (take (length emitted) emitted)
  kept_split n emitted xs e = rw e (
      sym (kept-append rules (take n emitted) (drop n emitted))
      ∙ ap (kept rules) (take-append-drop n emitted ∙ sym (take_all emitted)))

module _ {B I : Type 0} (rules : Rules B) (t0 : ℕ) where
  -- The recorder of a run that began at number 0 and time `t0` and emitted `emitted`: what was sent
  -- and what is held is what the profile keeps of the records before the cursor, and the cache still
  -- has the records from the cursor on.
  pub record IsFaithful (r : RunRecorder B I) (emitted : List (TraceRecord B)) : Type 0 where
    pub trace : IsCacheOf 0 t0 emitted r.buffer
    pub holding : r.buffer.holding ≡ true
    pub cursor_in : r.cursor ≤ length emitted
    pub through_in : r.through ≤ r.cursor
    pub persisted_in : r.buffer.persisted ≤ r.cursor
    pub cached : forgotten 0 r.buffer ≤ r.cursor
    pub content : batched r.sent ++ r.held ≡ kept rules (take r.cursor emitted)

  -- A faithful recorder whose cursor is at the end: everything kept is sent or held.
  abbrev CaughtUp : RunRecorder B I → List (TraceRecord B) → Type 0
  CaughtUp r emitted = IsFaithful r emitted × (r.cursor ≡ length emitted)

  all_sent :
      (r : RunRecorder B I) (emitted : List (TraceRecord B))
      → CaughtUp r emitted
      → r.held ≡ []
      → batched r.sent ≡ kept rules emitted
  all_sent r emitted (v, at) none_held =
      sym (append-nil (batched r.sent))
      ∙ ap (◌++◌ (batched r.sent)) (sym none_held)
      ∙ v.content
      ∙ ap (kept rules) (ap (λ n. take n emitted) at ∙ take_all emitted)

  fresh-eq-drop :
      (r : RunRecorder B I) (emitted : List (TraceRecord B))
      → IsFaithful r emitted
      → since r.cursor r.buffer ≡ drop r.cursor emitted
  fresh-eq-drop r emitted v =
      let at : max (r.cursor - 0) (forgotten 0 r.buffer) ≡ r.cursor = omega (arith, v.cached) in
      since-eq-drop 0 t0 emitted r.buffer r.cursor v.trace ∙ rw at

  take_fresh-CaughtUp :
      (xs : List (TraceRecord B)) (r : RunRecorder B I) (emitted : List (TraceRecord B))
      → IsFaithful r emitted
      → xs ≡ drop r.cursor emitted
      → CaughtUp (take_fresh rules xs r) emitted
  unfolding take_fresh
  take_fresh-CaughtUp [] r emitted v e =
      (v, omega (arith, v.cursor_in, ap length e, length-drop r.cursor emitted))
  take_fresh-CaughtUp (x ∷ xs) r emitted v e =
      let end = after_last r.cursor (x ∷ xs) in
      let r' : RunRecorder B I = record r { cursor = end; through = end } in
      let h = gather-Gathered rules (x ∷ xs) r' in
      let numbered =
        subst (Numbered r.cursor) (sym e)
          (Numbered-from_zero rules r.cursor emitted v.trace.numbered) in
      let at : end ≡ length emitted = omega (
        arith,
        after_last-Numbered r.cursor (x ∷ xs) numbered,
        ap length e,
        length-drop r.cursor emitted,
      ) in
      (
        record {
          trace = rw h.buffer v.trace;
          holding = rw h.buffer v.holding;
          cursor_in = rw h.cursor (omega (arith, at));
          through_in = rw (h.cursor, h.through) (omega arith);
          persisted_in = rw (h.cursor, h.buffer) (omega (arith, at, v.persisted_in, v.cursor_in));
          cached = rw (h.cursor, h.buffer) (omega (arith, at, v.cached, v.cursor_in));
          content =
              rw (h.held, h.sent, h.cursor, at)
                (sym (append_assoc (batched r.sent) r.held (kept rules (x ∷ xs)))
                  ∙ (rw v.content (kept_split rules r.cursor emitted (x ∷ xs) e)));
        },
        h.cursor ∙ at,
      )

  pub flush-IsFaithful :
      (r : RunRecorder B I) (emitted : List (TraceRecord B))
      → IsFaithful r emitted
      → IsFaithful (flush r) emitted
  unfolding flush
  flush-IsFaithful r emitted v =
      if_cases (λ q. IsFaithful q emitted) (is_idle r)
        (λ idle. record {
          trace = v.trace;
          holding = v.holding;
          cursor_in = v.cursor_in;
          through_in = v.through_in;
          persisted_in = v.persisted_in;
          cached = v.cached;
          content = v.content;
        })
        (λ busy. record {
          trace = v.trace;
          holding = v.holding;
          cursor_in = v.cursor_in;
          through_in = v.through_in;
          persisted_in = v.persisted_in;
          cached = v.cached;
          content = append-nil _ ∙ (rw (batched-append, append-nil) v.content);
        })

  pub update_waiting-IsFaithful :
      (r : RunRecorder B I) (emitted : List (TraceRecord B))
      → IsFaithful r emitted
      → IsFaithful (update_waiting r) emitted
  unfolding update_waiting
  update_waiting-IsFaithful r emitted v = record {
    trace = v.trace;
    holding = v.holding;
    cursor_in = v.cursor_in;
    through_in = v.through_in;
    persisted_in = v.persisted_in;
    cached = v.cached;
    content = v.content;
  }

  cursor-flush : (r : RunRecorder B I) → (flush r).cursor ≡ r.cursor
  unfolding flush
  cursor-flush r =
      if_cases (λ (q : RunRecorder B I). q.cursor ≡ r.cursor) (is_idle r) (λ _. refl) (λ _. refl)

  held-flush : (r : RunRecorder B I) → (flush r).held ≡ []
  unfolding flush is_idle
  held-flush r =
      if_cases (λ (q : RunRecorder B I). q.held ≡ []) (is_idle r) (λ e. ground arith) (λ _. refl)

  header-take_fresh :
      (xs : List (TraceRecord B)) (r : RunRecorder B I) → (take_fresh rules xs r).header ≡ r.header
  unfolding take_fresh
  header-take_fresh [] r = refl
  header-take_fresh (x ∷ xs) r = (gather-Gathered rules (x ∷ xs) _).header

  flushed :
      (q : RunRecorder B I) (header : Bool) (emitted : List (TraceRecord B))
      → CaughtUp q emitted
      → q.header ≡ header
      → let q' = update_waiting (if q.header then flush q else q) in
        IsFaithful q' emitted
        × (q'.cursor ≡ length emitted)
        × (header ≡ true → batched q'.sent ≡ kept rules emitted)
  unfolding update_waiting
  flushed q header emitted (v, at) same =
      if_cases
        (λ (p : RunRecorder B I).
          IsFaithful (update_waiting p) emitted
          × (p.cursor ≡ length emitted)
          × (header ≡ true → batched p.sent ≡ kept rules emitted))
        q.header
        (λ _.
          let v' = flush-IsFaithful q emitted v in
          let at' = cursor-flush q ∙ at in
          (
            update_waiting-IsFaithful (flush q) emitted v',
            at',
            λ _. all_sent (flush q) emitted (v', at') (held-flush q),
          ))
        (λ closed.
          (update_waiting-IsFaithful q emitted v, at, λ open_now. cc (closed, same, open_now)))

  -- `collect` takes everything emitted so far, and once the header is stored it has all been sent.
  pub collect-CaughtUp :
      (tick sim_time_s : ℕ) (r : RunRecorder B I) (emitted : List (TraceRecord B))
      → IsFaithful r emitted
      → IsFaithful (collect rules tick sim_time_s r) emitted
        × ((collect rules tick sim_time_s r).cursor ≡ length emitted)
        × (r.header ≡ true → batched (collect rules tick sim_time_s r).sent ≡ kept rules emitted)
  unfolding collect
  collect-CaughtUp tick sim_time_s r emitted v =
      let r' : RunRecorder B I = record r {
        sim = record { tick = tick; sim_time_s = sim_time_s };
      } in
      let v' : IsFaithful r' emitted = record {
        trace = v.trace;
        holding = v.holding;
        cursor_in = v.cursor_in;
        through_in = v.through_in;
        persisted_in = v.persisted_in;
        cached = v.cached;
        content = v.content;
      } in
      let q = take_fresh rules (since r.cursor r.buffer) r' in
      let got =
        take_fresh-CaughtUp (since r.cursor r.buffer) r' emitted v' (fresh-eq-drop r emitted v) in
      flushed q r.header emitted got (header-take_fresh (since r.cursor r.buffer) r')
