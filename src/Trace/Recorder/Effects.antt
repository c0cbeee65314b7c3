-- ===== src/Trace/Recorder/Effects.antt =====
-- What the recorder's steps do to its fields: each loop as one update of the record.
use mathlib.Core.List.{append-nil, append_assoc}
use agentsimjs.Prelude.{
  ℕ, suc, ◌+◌, ◌≡◌, refl, sym, ap, ◌∙◌, List, [], ◌∷◌, ◌++◌, Option, none, some, length,
  length-append, arith, Option-cases, inl, inr,
}
use agentsimjs.Trace.{TraceRecord}
use agentsimjs.Trace.Handover.{Sent, batch, item, after_last}
use agentsimjs.Trace.Recorder.{RunRecorder, Rules, dispatch, dispatch_all, gather_one, gather}
use agentsimjs.Trace.Buffer.Invariant.{Numbered}

module _ {B I : Type 0} where
  -- The records of the batches sent, in order.
  abbrev pub batched : List (Sent B I) → List (TraceRecord B)
  batched [] = []
  batched (batch b ∷ ms) = b.records ++ batched ms
  batched (item i ∷ ms) = batched ms

  pub batched-append : (ms ns : List (Sent B I)) → batched (ms ++ ns) ≡ batched ms ++ batched ns
  batched-append [] ns = refl
  batched-append (batch b ∷ ms) ns = simp (batched-append ms ns, append_assoc)
  batched-append (item i ∷ ms) ns = batched-append ms ns

  abbrev pub items_of : List I → List (Sent B I)
  items_of [] = []
  items_of (i ∷ is) = item i ∷ items_of is

  pub batched-items_of : (is : List I) → batched (items_of is) ≡ []
  batched-items_of [] = refl
  batched-items_of (i ∷ is) = batched-items_of is

  -- Everything but the batches and the count of items stays, and no batch is among what is sent.
  pub record Dispatched (r r' : RunRecorder B I) : Type 0 where
    pub buffer : r'.buffer ≡ r.buffer
    pub flow : r'.flow ≡ r.flow
    pub outbox : r'.outbox ≡ r.outbox
    pub cursor : r'.cursor ≡ r.cursor
    pub through : r'.through ≡ r.through
    pub held : r'.held ≡ r.held
    pub header : r'.header ≡ r.header
    pub batches : batched r'.sent ≡ batched r.sent

  pub dispatch_all-Dispatched :
      (is : List I) (r : RunRecorder B I) → Dispatched r (dispatch_all is r)
  unfolding dispatch_all
  dispatch_all-Dispatched [] r = record {
    buffer = refl;
    flow = refl;
    outbox = refl;
    cursor = refl;
    through = refl;
    held = refl;
    header = refl;
    batches = refl;
  }
  dispatch_all-Dispatched (i ∷ is) r =
      let h = dispatch_all-Dispatched is (dispatch i r) in
      record {
        buffer = h.buffer;
        flow = h.flow;
        outbox = h.outbox;
        cursor = h.cursor;
        through = h.through;
        held = h.held;
        header = h.header;
        batches = h.batches ∙ batched-append r.sent (item i ∷ []) ∙ append-nil (batched r.sent);
      }

pub after_last-Numbered :
    {B : Type 0} (k : ℕ) (xs : List (TraceRecord B))
    → Numbered k xs
    → after_last k xs ≡ k + length xs
after_last-Numbered k [] h = omega arith
after_last-Numbered k (x ∷ xs) h =
    let e : x.seq + 1 ≡ suc k = omega (arith, h.0) in
    rw e (omega (arith, after_last-Numbered (suc k) xs h.1))

module _ {B : Type 0} (rules : Rules B) where
  abbrev pub kept_one : Option (TraceRecord B) → List (TraceRecord B)
  kept_one none = []
  kept_one (some x) = rules.redact x ∷ []

  -- What the profile keeps of some records, redacted.
  abbrev pub kept : List (TraceRecord B) → List (TraceRecord B)
  kept [] = []
  kept (x ∷ xs) = kept_one (rules.filter_record x) ++ kept xs

  pub kept-append : (xs ys : List (TraceRecord B)) → kept (xs ++ ys) ≡ kept xs ++ kept ys
  kept-append [] ys = refl
  kept-append (x ∷ xs) ys = simp (kept-append xs ys, append_assoc)

module _ {B I : Type 0} (rules : Rules B) where
  -- Gathering adds what is kept to what is held, and touches neither the buffer nor what was sent.
  pub record Gathered (xs : List (TraceRecord B)) (r r' : RunRecorder B I) : Type 0 where
    pub buffer : r'.buffer ≡ r.buffer
    pub flow : r'.flow ≡ r.flow
    pub cursor : r'.cursor ≡ r.cursor
    pub through : r'.through ≡ r.through
    pub held : r'.held ≡ r.held ++ kept rules xs
    pub header : r'.header ≡ r.header
    pub sent : r'.sent ≡ r.sent
    pub counted : r'.handed_over ≡ r.handed_over + length (kept rules xs)

  gather_one-Gathered :
      (x : TraceRecord B) (r : RunRecorder B I)
      → Gathered (x ∷ []) r (gather_one rules (rules.filter_record x) r)
  unfolding gather_one
  gather_one-Gathered x r = elim (Option-cases (rules.filter_record x)) [
    | inl e ↦
        rw (e, gather_one)
          (record {
            buffer = refl;
            flow = refl;
            cursor = refl;
            through = refl;
            held = rw e (sym (append-nil r.held));
            header = refl;
            sent = refl;
            counted = rw e (omega arith);
          })
    | inr (y, e) ↦
        rw (e, gather_one)
          (record {
            buffer = refl;
            flow = refl;
            cursor = refl;
            through = refl;
            held = rw e;
            header = refl;
            sent = refl;
            counted = rw e (omega arith);
          })
  ]

  pub gather-Gathered :
      (xs : List (TraceRecord B)) (r : RunRecorder B I) → Gathered xs r (gather rules xs r)
  unfolding gather
  gather-Gathered [] r = record {
    buffer = refl;
    flow = refl;
    cursor = refl;
    through = refl;
    held = sym (append-nil r.held);
    header = refl;
    sent = refl;
    counted = omega arith;
  }
  gather-Gathered (x ∷ xs) r =
      let one = gather_one-Gathered x r in
      let h = gather-Gathered xs (gather_one rules (rules.filter_record x) r) in
      record {
        buffer = h.buffer ∙ one.buffer;
        flow = h.flow ∙ one.flow;
        cursor = h.cursor ∙ one.cursor;
        through = h.through ∙ one.through;
        held = h.held ∙ (rw one.held (simp (append-nil, append_assoc)));
        header = h.header ∙ one.header;
        sent = h.sent ∙ one.sent;
        counted = omega (
          arith,
          h.counted,
          one.counted,
          length-append (kept_one rules (rules.filter_record x)) (kept rules xs),
          ap length (append-nil (kept_one rules (rules.filter_record x))),
        );
      }
