-- ===== src/Trace/Buffer/Retention.antt =====
-- Histories of a buffer: a recorded run forgets only what is persisted, and an opted-out run keeps
-- the newest records and counts the others.
use mathlib.Core.List.{append-nil}
use agentsimjs.Prelude.{
  ℕ, ◌+◌, ◌-◌, ◌≤◌, ◌<◌, ◌≡◌, refl, sym, String, true, List, [], ◌∷◌, ◌++◌, Outcome, returned,
  threw, Ensures, ltb, min, max, length, drop, length-append, arith, if_cases,
}
use agentsimjs.Trace.{TraceRecord, RecordInput}
use agentsimjs.Trace.Buffer.{
  TraceBuffer, TraceError, stamped, forget_persisted, trim, push, mark_persisted, hold_unpersisted,
  since,
}
use agentsimjs.Trace.Buffer.Invariant.{
  IsCacheOf, marked, marked-IsCacheOf, forgotten, push-IsCacheOf, mark_persisted-IsCacheOf,
  forget_persisted-IsCacheOf, since-eq-drop, appended-IsCacheOf,
}

-- What the run and its recorder do with a buffer.
pub data Op (B : Type 0) : Type 0 where
  pushes : ℕ → RecordInput B → String → Op B
  marks : ℕ → Op B
  holds : Op B

-- The buffer, and all that was emitted into it.
pub record Traced (B : Type 0) : Type 0 where
  pub buffer : TraceBuffer B
  pub emitted : List (TraceRecord B)

module _ {B : Type 0} where
  abbrev pub after_push : Traced B → Outcome TraceError (TraceRecord B) (TraceBuffer B) → Traced B
  after_push s (returned rec b) = record { buffer = b; emitted = s.emitted ++ rec ∷ [] }
  after_push s (threw e b) = record s { buffer = b }

  unfoldable pub apply : Op B → Traced B → Traced B
  apply (pushes wall r source) s = after_push s (push wall r source s.buffer)
  apply (marks through) s = record s { buffer = mark_persisted through s.buffer }
  apply holds s = record s { buffer = hold_unpersisted s.buffer }

  unfoldable pub history : List (Op B) → Traced B → Traced B
  history [] s = s
  history (o ∷ os) s = history os (apply o s)

module _ {B : Type 0} where
  -- A push adds to what was emitted, and says nothing of what is persisted.
  pub emitted-push :
      (wall : ℕ) (r : RecordInput B) (source : String) (s : Traced B)
      → (extra : List (TraceRecord B)) × ((apply (pushes wall r source) s).emitted
          ≡ s.emitted ++ extra)
  unfolding apply push
  emitted-push wall r source s =
      if_cases
        (λ o. (extra : List (TraceRecord B)) × ((after_push s o).emitted ≡ s.emitted ++ extra))
        (ltb r.sim_time s.buffer.last_sim_time) (λ _. ([], sym (append-nil s.emitted)))
        (λ _. (stamped wall source r s.buffer ∷ [], refl))

  persisted-trim : (b : TraceBuffer B) → (trim b).persisted ≡ b.persisted
  unfolding trim forget_persisted
  persisted-trim b = ground arith

  pub persisted-push :
      (wall : ℕ) (r : RecordInput B) (source : String) (s : Traced B)
      → (apply (pushes wall r source) s).buffer.persisted ≡ s.buffer.persisted
  unfolding apply push
  persisted-push wall r source s =
      if_cases (λ o. (after_push s o).buffer.persisted ≡ s.buffer.persisted)
        (ltb r.sim_time s.buffer.last_sim_time) (λ _. refl)
        (λ _. persisted-trim (record s.buffer {
          records = s.buffer.records ++ stamped wall source r s.buffer ∷ [];
          seq = s.buffer.seq + 1;
          last_sim_time = r.sim_time;
        }))

  pub persisted-mark_persisted :
      (through : ℕ) (b : TraceBuffer B)
      → (mark_persisted through b).persisted ≡ max b.persisted (min through b.seq)
  unfolding mark_persisted forget_persisted
  persisted-mark_persisted through b =
      if_cases (λ (q : TraceBuffer B). q.persisted ≡ max b.persisted (min through b.seq)) b.holding
        (λ _. refl) (λ _. refl)

module _ {B : Type 0} (base t0 : ℕ) where
  abbrev pub IsTrace : Traced B → Type 0
  IsTrace s = IsCacheOf base t0 s.emitted s.buffer

  after_push-IsTrace :
      (wall : ℕ) (r : RecordInput B) (source : String) (s : Traced B)
      (o : Outcome TraceError (TraceRecord B) (TraceBuffer B))
      → IsTrace s
      → Ensures
          (λ rec b'.
            (rec ≡ stamped wall source r s.buffer)
            × (s.buffer.last_sim_time ≤ r.sim_time)
            × IsCacheOf base t0 (s.emitted ++ rec ∷ []) b')
          (λ _ b'. (r.sim_time < s.buffer.last_sim_time) × (b' ≡ s.buffer))
          o
      → IsTrace (after_push s o)
  after_push-IsTrace wall r source s (returned rec b) v h = h.2
  after_push-IsTrace wall r source s (threw e b) v h = rw h.1 v

  hold-IsCacheOf :
      (emitted : List (TraceRecord B)) (b : TraceBuffer B)
      → IsCacheOf base t0 emitted b
      → IsCacheOf base t0 emitted (hold_unpersisted b)
  unfolding hold_unpersisted
  hold-IsCacheOf emitted b v = record {
    counted = v.counted;
    window = v.window;
    fits = v.fits;
    numbered = v.numbered;
    rising = v.rising;
    latest = v.latest;
    saved = v.saved;
  }

  pub apply-IsTrace : (o : Op B) (s : Traced B) → IsTrace s → IsTrace (apply o s)
  unfolding apply
  apply-IsTrace (pushes wall r source) s v =
      after_push-IsTrace wall r source s (push wall r source s.buffer) v
        (push-IsCacheOf base t0 s.emitted s.buffer wall r source v)
  apply-IsTrace (marks through) s v = mark_persisted-IsCacheOf base t0 s.emitted s.buffer through v
  apply-IsTrace holds s v = hold-IsCacheOf s.emitted s.buffer v

  -- After any history the cache is a suffix of what was emitted, numbered without gaps from `base`
  -- and in time order.
  pub history-IsTrace : (os : List (Op B)) (s : Traced B) → IsTrace s → IsTrace (history os s)
  unfolding history
  history-IsTrace [] s v = v
  history-IsTrace (o ∷ os) s v = history-IsTrace os (apply o s) (apply-IsTrace o s v)

  -- How a held buffer stands to an earlier one: still held, and what it has forgotten since is
  -- persisted.
  pub record Retains (b b' : TraceBuffer B) : Type 0 where
    pub held : b'.holding ≡ true
    pub grown : b.persisted ≤ b'.persisted
    pub kept : base + forgotten base b' ≤ max (base + forgotten base b) b'.persisted

  Retains-trans : (a b c : TraceBuffer B) → Retains a b → Retains b c → Retains a c
  Retains-trans a b c h k = record {
    held = k.held;
    grown = omega (arith, h.grown, k.grown);
    kept = omega (arith, h.kept, k.kept, k.grown);
  }

  trim-Retains :
      (emitted : List (TraceRecord B)) (b : TraceBuffer B)
      → IsCacheOf base t0 emitted b
      → b.holding ≡ true
      → Retains b (trim b)
  unfolding trim forget_persisted
  trim-Retains emitted b v held =
      if_cases (Retains b) (ltb b.capacity (length b.records))
        (λ over.
          if_cases (Retains b) b.holding
            (λ _. record {
              held = held;
              grown = omega arith;
              kept = omega (arith, (forget_persisted-IsCacheOf base t0 emitted b v).1);
            })
            (λ free. absurd (cc (held, free))))
        (λ room. record { held = held; grown = omega arith; kept = omega arith })

  after_push-Retains :
      (wall : ℕ) (r : RecordInput B) (source : String) (s : Traced B)
      → IsTrace s
      → s.buffer.holding ≡ true
      → Retains s.buffer (after_push s (push wall r source s.buffer)).buffer
  unfolding push
  after_push-Retains wall r source s v held =
      let b = s.buffer in
      let rec = stamped wall source r b in
      let b' : TraceBuffer B = record b {
        records = b.records ++ rec ∷ [];
        seq = b.seq + 1;
        last_sim_time = r.sim_time;
      } in
      if_cases (λ o. Retains b (after_push s o).buffer) (ltb r.sim_time b.last_sim_time)
        (λ back. record { held = held; grown = omega arith; kept = omega arith })
        (λ on.
          Retains-trans b b' (trim b')
            (record {
              held = held;
              grown = omega arith;
              kept = omega (arith, length-append b.records (rec ∷ []), v.counted, v.fits);
            })
            (trim-Retains (s.emitted ++ rec ∷ []) b'
              (appended-IsCacheOf base t0 s.emitted b wall r source v (ground arith)) held))

  pub apply-Retains :
      (o : Op B) (s : Traced B)
      → IsTrace s
      → s.buffer.holding ≡ true
      → Retains s.buffer (apply o s).buffer
  unfolding apply mark_persisted hold_unpersisted forget_persisted
  apply-Retains (pushes wall r source) s v held = after_push-Retains wall r source s v held
  apply-Retains (marks through) s v held =
      let b' = marked base t0 through s.buffer in
      let v' = marked-IsCacheOf base t0 s.emitted s.buffer through v in
      if_cases (Retains s.buffer) s.buffer.holding
        (λ _. record {
          held = held;
          grown = omega arith;
          kept = omega (arith, (forget_persisted-IsCacheOf base t0 s.emitted b' v').1);
        })
        (λ free. absurd (cc (held, free)))
  apply-Retains holds s v held = record { held = refl; grown = omega arith; kept = omega arith }

  history-Retains :
      (os : List (Op B)) (s : Traced B)
      → IsTrace s
      → s.buffer.holding ≡ true
      → Retains s.buffer (history os s).buffer
  unfolding history
  history-Retains [] s v held = record { held = held; grown = omega arith; kept = omega arith }
  history-Retains (o ∷ os) s v held =
      let first = apply-Retains o s v held in
      Retains-trans s.buffer (apply o s).buffer (history os (apply o s)).buffer first
        (history-Retains os (apply o s) (apply-IsTrace o s v) first.held)

  -- In a recorded run, whatever is pushed and reported saved: the cache still holds, in order, every
  -- emitted record from any number on that is at or above what is persisted.
  pub history_holds_unpersisted :
      (os : List (Op B)) (s : Traced B) (n : ℕ)
      → IsTrace s
      → s.buffer.holding ≡ true
      → forgotten base s.buffer ≡ 0
      → (history os s).buffer.persisted ≤ n
      → since n (history os s).buffer ≡ drop (n - base) (history os s).emitted
  history_holds_unpersisted os s n v held whole h =
      let r = history-Retains os s v held in
      let few : max (n - base) (forgotten base (history os s).buffer) ≡ n - base =
        omega (arith, r.kept) in
      rw (← few) (
        since-eq-drop base t0 (history os s).emitted (history os s).buffer n
          (history-IsTrace os s v))
