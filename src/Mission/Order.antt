-- ===== src/Mission/Order.antt =====
-- A mission decides its steps in order, each once, whatever events its requests carry.
use mathlib.Core.List.{append-nil, append_assoc}
use agentsimjs.Prelude.{
  ℕ, zero, suc, ◌+◌, ◌-◌, ◌≤◌, ◌<◌, ◌≡◌, refl, sym, ap, ◌∙◌, String, Bool, true, false, ◌&&◌, inl,
  inr, List, [], ◌∷◌, ◌++◌, map, some, leb, length, take, get_elem?, arith, if_cases, Option-cases,
}
use text.Mathlib.Text.{◌==◌ as str_eq}
use agentsimjs.Mission.{
  SequenceStep, Capabilities, Event, start, action_completed, action_failed, action_rejected, other,
  Phase, ready, running, stopped, done, Envelope, idle, act, Brain, new_brain, begin, stop, finish,
  react, react_running, next_in, next, has_start, resumes_after_preemption,
}

abbrev pub actions : {A : Type 0} → List (SequenceStep A) → List String
actions = map (λ s. s.action)

-- The action that a mind's answer starts, if any.
abbrev pub decided : {A : Type 0} → Envelope A → List String
decided (idle _) = []
decided (act name _ _) = name ∷ []

-- A state of a mission of `n` steps.
abbrev pub InPhase : ℕ → ℕ → Phase → Type 0
InPhase n cursor ready = cursor ≡ 0
InPhase n cursor _ = (1 ≤ cursor) × (cursor ≤ n)

abbrev pub IsState : ℕ → Brain → Type 0
IsState n b = InPhase n b.cursor b.phase

take_next :
    {A : Type 0} (steps : List (SequenceStep A)) (i : ℕ) (s : SequenceStep A)
    → get_elem? steps i ≡ some s
    → (take (suc i) (actions steps) ≡ take i (actions steps) ++ s.action ∷ []) × (i < length steps)
take_next [] i s e = cc
take_next (x ∷ xs) zero s e = (ground arith, omega arith)
take_next (x ∷ xs) (suc i) s e =
    let (h, lt) = take_next xs i s e in (ap (◌∷◌ x.action) h, omega arith)

module _ {A : Type 0} (caps : Capabilities A) (steps : List (SequenceStep A)) where
  -- The answer starts exactly the steps by which the cursor moves, and leaves a state.
  abbrev Advances : Brain → Envelope A × Brain → Type 0
  Advances b (e, b') =
      IsState (length steps) b'
      × (take b'.cursor (actions steps) ≡ take b.cursor (actions steps) ++ decided e)

  begin-Advances :
      (i : ℕ) (b : Brain)
      → b.cursor ≡ i
      → IsState (length steps) b
      → Advances b (begin caps steps i b)
  unfolding begin
  begin-Advances i b at v = elim (Option-cases (get_elem? steps i)) [
    | inl e ↦ rw (e, begin) (v, sym (append-nil _))
    | inr (s, e) ↦
        let (h, lt) = take_next steps i s e in
        let one : i + 1 ≡ suc i = omega arith in
        rw (e, begin, at) ((omega arith, omega arith), rw one h)
  ]

  react-Advances :
      (action : String) (es : List Event) (b : Brain)
      → IsState (length steps) b
      → (1 ≤ b.cursor) × (b.cursor ≤ length steps)
      → Advances b (react caps steps action es b)
  unfolding react stop finish resumes_after_preemption
  react-Advances action [] b v h = (v, sym (append-nil _))
  react-Advances action (start ∷ es) b v h = react-Advances action es b v h
  react-Advances action (other ∷ es) b v h = react-Advances action es b v h
  react-Advances action (action_rejected name code ∷ es) b v h =
      if_cases (Advances b) (str_eq name action) (λ _. (h, sym (append-nil _)))
        (λ _. react-Advances action es b v h)
  react-Advances action (action_failed name was_preempted code ∷ es) b v h =
      if_cases (Advances b) (str_eq name action)
        (λ _.
          if_cases (Advances b) (was_preempted && false) (λ e. absurd (never was_preempted e))
            (λ _. (h, sym (append-nil _))))
        (λ _. react-Advances action es b v h)
    where
      never : (p : Bool) → (p && false) ≡ true → ⊥
      never true e = cc
      never false e = cc
  react-Advances action (action_completed name ∷ es) b v h =
      if_cases (Advances b) (str_eq name action)
        (λ _.
          if_cases (Advances b) (leb (length steps) b.cursor) (λ _. (h, sym (append-nil _)))
            (λ more. begin-Advances b.cursor b refl v))
        (λ _. react-Advances action es b v h)

  next_in-Advances :
      (p : Phase) (es : List Event) (b : Brain)
      → b.phase ≡ p
      → IsState (length steps) b
      → Advances b (next_in caps steps p es b)
  unfolding next_in react_running
  next_in-Advances ready es b e v =
      if_cases (Advances b) (has_start es) (λ _. begin-Advances 0 b (rw e at v) v)
        (λ _. (v, sym (append-nil _)))
  next_in-Advances running es b e v = elim (Option-cases (get_elem? steps (b.cursor - 1))) [
    | inl missing ↦ rw (missing, react_running) (v, sym (append-nil _))
    | inr (s, there) ↦ rw (there, react_running) (react-Advances s.action es b v (rw e at v))
  ]
  next_in-Advances stopped es b e v = (v, sym (append-nil _))
  next_in-Advances done es b e v = (v, sym (append-nil _))

  pub next-Advances :
      (es : List Event) (b : Brain) → IsState (length steps) b → Advances b (next caps steps es b)
  unfolding next
  next-Advances es b v = next_in-Advances b.phase es b refl v

  -- The actions that a mind decides over a sequence of requests, and the state it ends in.
  unfoldable pub serve : List (List Event) → Brain → List String × Brain
  serve [] b = ([], b)
  serve (r ∷ rs) b =
      let (e, b') = next caps steps r b in
      let (names, b'') = serve rs b' in (decided e ++ names, b'')

  pub serve-prefix :
      (rs : List (List Event)) (b : Brain)
      → IsState (length steps) b
      → IsState (length steps) (serve rs b).1
        × (take (serve rs b).1.cursor (actions steps)
            ≡ take b.cursor (actions steps) ++ (serve rs b).0)
  unfolding serve
  serve-prefix [] b v = (v, sym (append-nil _))
  serve-prefix (r ∷ rs) b v =
      let (v', h) = next-Advances r b v in
      let (v'', h') = serve-prefix rs (next caps steps r b).1 v' in
      (v'', h' ∙ (rw (h, append_assoc)))

  -- From its first request on, whatever events the requests carry, a mission decides a prefix of its
  -- actions: in order, none skipped and none repeated, as many as its cursor says.
  pub mission_in_order :
      (rs : List (List Event))
      → (serve rs new_brain).0 ≡ take (serve rs new_brain).1.cursor (actions steps)
  mission_in_order rs = sym (serve-prefix rs new_brain refl).1
