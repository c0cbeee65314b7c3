-- ===== src/Trace/Buffer/Invariant.antt =====
-- The buffer against all that the run emitted: the cache is a suffix of it, numbered and in time
-- order, and what a holding buffer has forgotten is persisted.
use agentsimjs.Prelude.{
  ℕ, String, zero, suc, ◌+◌, ◌-◌, ◌≤◌, ◌<◌, ◌≡◌, refl, sym, ap, subst, ◌∙◌, List, [], ◌∷◌, ◌++◌,
  Ensures, ltb, min, max, length, drop, length-append, length-drop, drop-drop, drop-append,
  drop_all, arith, ◌⊎◌, inl, inr, Bool-cases, if_cases,
}
use agentsimjs.Trace.{TraceRecord, RecordInput}
use agentsimjs.Trace.Buffer.{
  TraceBuffer, stamped, forgettable, forget_persisted, trim, push, mark_persisted, since,
  since_first,
}

module _ {B : Type 0} where
  -- Numbers rise by one from `k`.
  abbrev pub Numbered : ℕ → List (TraceRecord B) → Type 0
  Numbered k [] = Unit {0}
  Numbered k (r ∷ rs) = (r.seq ≡ k) × Numbered (suc k) rs

  -- Times never fall, from `t` on.
  abbrev pub Rising : ℕ → List (TraceRecord B) → Type 0
  Rising t [] = Unit {0}
  Rising t (r ∷ rs) = (t ≤ r.sim_time) × Rising r.sim_time rs

  abbrev pub last_time : ℕ → List (TraceRecord B) → ℕ
  last_time t [] = t
  last_time t (r ∷ rs) = last_time r.sim_time rs

  -- How many of the records numbered from `base` are no longer in the cache.
  abbrev pub forgotten : ℕ → TraceBuffer B → ℕ
  forgotten base b = b.seq - base - length b.records

  -- The buffer `b`, whose numbers began at `base` and times at `t0`, after the run emitted `emitted`.
  pub record IsCacheOf (base t0 : ℕ) (emitted : List (TraceRecord B)) (b : TraceBuffer B)
      : Type 0 where
    pub counted : b.seq ≡ base + length emitted
    pub window : b.records ≡ drop (forgotten base b) emitted
    pub fits : length b.records ≤ length emitted
    pub numbered : Numbered base emitted
    pub rising : Rising t0 emitted
    pub latest : last_time t0 emitted ≡ b.last_sim_time
    pub saved : b.persisted ≤ b.seq

  Numbered-append :
      (k : ℕ) (rs : List (TraceRecord B)) (r : TraceRecord B)
      → Numbered k rs
      → r.seq ≡ k + length rs
      → Numbered k (rs ++ r ∷ [])
  Numbered-append k [] r n e = (omega arith, tt)
  Numbered-append k (x ∷ rs) r n e = (n.0, Numbered-append (suc k) rs r n.1 (omega arith))

  pub Numbered-drop :
      (k n : ℕ) (rs : List (TraceRecord B)) → Numbered k rs → Numbered (k + n) (drop n rs)
  Numbered-drop k zero rs h = let e : k + zero ≡ k = omega arith in rw e h
  Numbered-drop k (suc n) [] h = tt
  Numbered-drop k (suc n) (x ∷ rs) h =
      let e : k + suc n ≡ suc k + n = omega arith in rw e (Numbered-drop (suc k) n rs h.1)

  Rising-append :
      (t : ℕ) (rs : List (TraceRecord B)) (r : TraceRecord B)
      → Rising t rs
      → last_time t rs ≤ r.sim_time
      → Rising t (rs ++ r ∷ []) × (last_time t (rs ++ r ∷ []) ≡ r.sim_time)
  Rising-append t [] r h e = ((e, tt), refl)
  Rising-append t (x ∷ rs) r h e =
      let (h', e') = Rising-append x.sim_time rs r h.1 e in ((h.0, h'), e')

  -- `n` records go from the front: at most down to the capacity, only persisted ones, and all that
  -- the two bounds allow.
  pub forgettable_bounds :
      (cap persisted k : ℕ) (rs : List (TraceRecord B))
      → Numbered k rs
      → let n = forgettable cap persisted rs in
        (min (length rs) cap + n ≤ length rs)
        × (k + n ≤ max k persisted)
        × ((length rs ≤ cap + n) ⊎ (persisted ≤ k + n))
  unfolding forgettable
  forgettable_bounds cap persisted k [] h = (omega arith, omega arith, inl (omega arith))
  forgettable_bounds cap persisted k (r ∷ rs) h =
      ground (arith, forgettable_bounds cap persisted (suc k) rs)

module _ {B : Type 0} (base t0 : ℕ) where
  -- Dropping `n` more records from the front keeps a window.
  window-drop :
      (emitted : List (TraceRecord B)) (b : TraceBuffer B) (n : ℕ)
      → IsCacheOf base t0 emitted b
      → n ≤ length b.records
      → (length (drop n b.records) ≤ length emitted)
        × (drop n b.records ≡ drop (b.seq - base - length (drop n b.records)) emitted)
  window-drop emitted b n v h =
      let l = length-drop n b.records in
      let more : b.seq - base - length (drop n b.records) ≡ forgotten base b + n =
        omega (arith, v.counted, v.fits) in
      (
        omega (arith, v.fits),
        rw more (ap (drop n) v.window ∙ drop-drop (forgotten base b) n emitted),
      )

  pub records-Numbered :
      (emitted : List (TraceRecord B)) (b : TraceBuffer B)
      → IsCacheOf base t0 emitted b
      → Numbered (base + forgotten base b) b.records
  records-Numbered emitted b v =
      subst (Numbered (base + forgotten base b)) (sym v.window)
        (Numbered-drop base _ emitted v.numbered)

  pub forget_persisted-IsCacheOf :
      (emitted : List (TraceRecord B)) (b : TraceBuffer B)
      → IsCacheOf base t0 emitted b
      → IsCacheOf base t0 emitted (forget_persisted b)
        × (forgotten base (forget_persisted b) + base ≤ max (base + forgotten base b) b.persisted)
  unfolding forget_persisted
  forget_persisted-IsCacheOf emitted b v =
      let n = forgettable b.capacity b.persisted b.records in
      let bounds =
        forgettable_bounds b.capacity b.persisted (base + forgotten base b) b.records
          (records-Numbered emitted b v) in
      let (fits, window) = window-drop emitted b n v (omega (arith, bounds.0)) in
      (
        record {
          counted = v.counted;
          window = window;
          fits = fits;
          numbered = v.numbered;
          rising = v.rising;
          latest = v.latest;
          saved = v.saved;
        },
        omega (arith, length-drop n b.records, bounds.0, bounds.1, v.counted, v.fits),
      )

  -- The record that a push makes, at the end of what was emitted.
  pub appended-IsCacheOf :
      (emitted : List (TraceRecord B)) (b : TraceBuffer B) (wall : ℕ) (r : RecordInput B)
      (source : String)
      → IsCacheOf base t0 emitted b
      → b.last_sim_time ≤ r.sim_time
      → IsCacheOf base t0 (emitted ++ stamped wall source r b ∷ []) (record b {
        records = b.records ++ stamped wall source r b ∷ [];
        seq = b.seq + 1;
        last_sim_time = r.sim_time;
      })
  appended-IsCacheOf emitted b wall r source v h =
      let rec = stamped wall source r b in
      let le = length-append emitted (rec ∷ []) in
      let lr = length-append b.records (rec ∷ []) in
      let same : b.seq + 1 - base - length (b.records ++ rec ∷ []) ≡ forgotten base b =
        omega (arith, le, lr, v.counted, v.fits) in
      let (up, last) = Rising-append t0 emitted rec v.rising (omega (arith, v.latest)) in
      record {
        counted = omega (arith, le, v.counted);
        window = rw same (
            ap (λ (l : List (TraceRecord B)). l ++ rec ∷ []) v.window
            ∙ sym (drop-append (forgotten base b) emitted (rec ∷ []) (omega (arith, v.counted))));
        fits = omega (arith, le, lr, v.fits);
        numbered = Numbered-append base emitted rec v.numbered v.counted;
        rising = up;
        latest = last;
        saved = omega (arith, v.saved);
      }

  trim-IsCacheOf :
      (emitted : List (TraceRecord B)) (b : TraceBuffer B)
      → IsCacheOf base t0 emitted b
      → IsCacheOf base t0 emitted (trim b)
  unfolding trim
  trim-IsCacheOf emitted b v =
      if_cases (IsCacheOf base t0 emitted) (ltb b.capacity (length b.records))
        (λ over.
          if_cases (IsCacheOf base t0 emitted) b.holding
            (λ held. (forget_persisted-IsCacheOf emitted b v).0)
            (λ free.
              let (fits, window) = window-drop emitted b 1 v (ground arith) in
              record {
                counted = v.counted;
                window = window;
                fits = fits;
                numbered = v.numbered;
                rising = v.rising;
                latest = v.latest;
                saved = v.saved;
              }))
        (λ room. v)

  -- A push appends exactly its record, with the next number, to what the cache is a suffix of; a
  -- push whose time lies before the last one is refused and changes nothing.
  pub push-IsCacheOf :
      (emitted : List (TraceRecord B)) (b : TraceBuffer B) (wall : ℕ) (r : RecordInput B)
      (source : String)
      → IsCacheOf base t0 emitted b
      → Ensures
          (λ rec b'.
            (rec ≡ stamped wall source r b)
            × (b.last_sim_time ≤ r.sim_time)
            × IsCacheOf base t0 (emitted ++ rec ∷ []) b')
          (λ _ b'. (r.sim_time < b.last_sim_time) × (b' ≡ b))
          (push wall r source b)
  unfolding push
  push-IsCacheOf emitted b wall r source v = elim (Bool-cases (ltb r.sim_time b.last_sim_time)) [
    | inl back ↦ rw back (ground arith, refl)
    | inr on ↦
        let fwd : b.last_sim_time ≤ r.sim_time = ground arith in
        rw on (refl, fwd, trim-IsCacheOf _ _ (appended-IsCacheOf emitted b wall r source v fwd))
  ]

  abbrev pub marked : ℕ → TraceBuffer B → TraceBuffer B
  marked through b = record b { persisted = max b.persisted (min through b.seq) }

  pub marked-IsCacheOf :
      (emitted : List (TraceRecord B)) (b : TraceBuffer B) (through : ℕ)
      → IsCacheOf base t0 emitted b
      → IsCacheOf base t0 emitted (marked through b)
  marked-IsCacheOf emitted b through v = record {
    counted = v.counted;
    window = v.window;
    fits = v.fits;
    numbered = v.numbered;
    rising = v.rising;
    latest = v.latest;
    saved = omega (arith, v.saved);
  }

  pub mark_persisted-IsCacheOf :
      (emitted : List (TraceRecord B)) (b : TraceBuffer B) (through : ℕ)
      → IsCacheOf base t0 emitted b
      → IsCacheOf base t0 emitted (mark_persisted through b)
  unfolding mark_persisted
  mark_persisted-IsCacheOf emitted b through v =
      let v' = marked-IsCacheOf emitted b through v in
      if_cases (IsCacheOf base t0 emitted) b.holding
        (λ held. (forget_persisted-IsCacheOf emitted (marked through b) v').0) (λ free. v')

  -- The cache from a number on: the records emitted with that number or a later one, less those
  -- that the cache has forgotten.
  pub since-eq-drop :
      (emitted : List (TraceRecord B)) (b : TraceBuffer B) (n : ℕ)
      → IsCacheOf base t0 emitted b
      → since n b ≡ drop (max (n - base) (forgotten base b)) emitted
  unfolding since
  since-eq-drop emitted b n v = go b.records refl (records-Numbered emitted b v)
    where
      go :
          (rs : List (TraceRecord B))
          → b.records ≡ rs
          → Numbered (base + forgotten base b) rs
          → since_first n rs ≡ drop (max (n - base) (forgotten base b)) emitted
      go [] e h = sym (drop_all _ emitted (omega (arith, ap length e, v.counted, v.fits)))
      go (first ∷ rest) e h =
          let at : max (n - base) (forgotten base b) ≡ forgotten base b + (n - first.seq) =
            omega (arith, h.0) in
          rw (at, ← drop-drop (forgotten base b) (n - first.seq) emitted, ← v.window, e)
