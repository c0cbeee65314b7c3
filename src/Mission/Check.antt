-- ===== src/Mission/Check.antt =====
-- The check of a list of steps against what the manifest says of each.
use agentsimjs.Prelude.{
  if◌then◌else◌, subst, sym, false, Bool-cases, Option, none, some, ℕ, ◌+◌, ◌≤◌, ◌<◌, ◌≡◌, refl, ap,
  String, true, List, [], ◌∷◌, ◌++◌, Result, ok, err, ltb, ◌==◌, length, arith, ◌⊎◌, inl, inr,
  if_cases,
}
use mathlib.Core.List.{Mem, mem-cons_self, mem-cons_of_mem, not-mem-nil, eq-or-mem_of_mem-cons}
use text.Mathlib.Text.{◌==◌ as str_eq}
use mathlib.Core.Logic.{∥∥₁_elim}
use text.Mathlib.TextEquality.{eq_iff}
use agentsimjs.Mission.{
  SequenceStep, Capabilities, MissionError, mission_empty, mission_too_long, mission_max_steps,
  unknown_action, vehicle_unsupported, invalid_args, args_of, includes, check_step, check_steps,
  validate_sequence,
}

includes-true : (xs : List String) (s : String) → includes xs s ≡ true → Mem s xs
unfolding includes
includes-true [] s h = cc
includes-true (x ∷ xs) s h = elim (Bool-cases (str_eq x s)) [
  | inl e ↦ subst (λ y. Mem s (y ∷ xs)) (sym ((eq_iff x s).0 e)) mem-cons_self
  | inr e ↦
      mem-cons_of_mem x
        (includes-true xs s (subst (λ b. (if b then true else includes xs s) ≡ true) e h))
]

includes-false : (xs : List String) (s : String) → includes xs s ≡ false → ¬ Mem s xs
unfolding includes
includes-false [] s h m = not-mem-nil m
includes-false (x ∷ xs) s h m = elim (Bool-cases (str_eq x s)) [
  | inl e ↦ let p = subst (λ b. (if b then true else includes xs s) ≡ false) e h in cc
  | inr e ↦
      let rest = subst (λ b. (if b then true else includes xs s) ≡ false) e h in
      ∥∥₁_elim (eq-or-mem_of_mem-cons m) (hlevel) (λ c. elim c [
        | inl q ↦ let p = (eq_iff x s).1 (sym q) in cc
        | inr later ↦ includes-false xs s rest later
      ])
]

module _ {A : Type 0} (caps : Capabilities A) (kind : String) where
  -- The arguments of a step: those it carries, or the empty object.
  abbrev pub arguments : Option A → A
  arguments none = caps.no_args
  arguments (some a) = a

  -- An action that exists, that this kind of vehicle supports, with arguments its schema accepts.
  pub record IsAccepted (s : SequenceStep A) : Type 0 where
    pub known : caps.is_action s.action ≡ true
    pub supported : Mem kind (caps.vehicles s.action)
    pub valid : caps.accepts s.action (arguments s.args) ≡ true

  abbrev pub AllAccepted : List (SequenceStep A) → Type 0
  AllAccepted [] = Unit {0}
  AllAccepted (s ∷ ss) = IsAccepted s × AllAccepted ss

  -- Why the step with number `n` is refused: the first of the three that fails, and its error.
  abbrev pub Refused : ℕ → SequenceStep A → MissionError → Type 0
  Refused n s e =
      ((e ≡ unknown_action n s.action) × (caps.is_action s.action ≡ false))
      ⊎ (((e ≡ vehicle_unsupported n s.action)
            × (caps.is_action s.action ≡ true)
            × ¬ Mem kind (caps.vehicles s.action))
          ⊎ ((e ≡ invalid_args n s.action)
              × (caps.is_action s.action ≡ true)
              × Mem kind (caps.vehicles s.action)
              × (caps.accepts s.action (arguments s.args) ≡ false)))

  -- The first step that is not accepted, the steps before it, and the error for its number.
  pub record FirstRefused (step : ℕ) (steps : List (SequenceStep A)) (e : MissionError)
      : Type 0 where
    pub before : List (SequenceStep A)
    pub refused : SequenceStep A
    pub after : List (SequenceStep A)
    pub whole : steps ≡ before ++ refused ∷ after
    pub good : AllAccepted before
    pub why : Refused (step + length before) refused e

  abbrev pub Checked : ℕ → List (SequenceStep A) → Result MissionError Unit → Type 0
  Checked step steps (ok _) = AllAccepted steps
  Checked step steps (err e) = FirstRefused step steps e

  args_of-arguments : (s : SequenceStep A) → args_of caps s ≡ arguments s.args
  unfolding args_of
  args_of-arguments s = by_args s.args
    where
      by_args : (a : Option A) → elim a [ none ↦ caps.no_args | some x ↦ x ] ≡ arguments a
      by_args none = refl
      by_args (some x) = refl

  -- The verdict on one step: accepted, or why it is refused.
  StepVerdict : ℕ → SequenceStep A → Result MissionError Unit → Type 0
  StepVerdict n s (ok _) = IsAccepted s
  StepVerdict n s (err e) = Refused n s e

  check_step-Verdict : (n : ℕ) (s : SequenceStep A) → StepVerdict n s (check_step caps kind n s)
  unfolding check_step StepVerdict
  check_step-Verdict n s = elim (Bool-cases (caps.is_action s.action)) [
    | inr unknown ↦ rw unknown (inl (refl, unknown))
    | inl known ↦ rw known (elim (Bool-cases (includes (caps.vehicles s.action) kind)) [
      | inr lacking ↦ rw lacking (inr (inl (refl, known, includes-false _ kind lacking)))
      | inl listed ↦
          let here = includes-true _ kind listed in
          rw (listed, args_of-arguments s)
            (elim (Bool-cases (caps.accepts s.action (arguments s.args))) [
              | inr bad ↦ rw bad (inr (inr (refl, known, here, bad)))
              | inl good ↦ rw good (record { known = known; supported = here; valid = good })
            ])
    ])
  ]

  check_steps-Checked :
      (step : ℕ) (steps : List (SequenceStep A))
      → Checked step steps (check_steps caps kind step steps)
  unfolding check_steps StepVerdict
  check_steps-Checked step [] = tt
  check_steps-Checked step (s ∷ ss) =
      go (check_step caps kind step s) (check_step-Verdict step s)
        (check_steps caps kind (step + 1) ss) (check_steps-Checked (step + 1) ss)
    where
      later :
          (r : Result MissionError Unit)
          → IsAccepted s
          → Checked (step + 1) ss r
          → Checked step (s ∷ ss) r
      later (ok _) a h = (a, h)
      later (err e) a h = record {
        before = s ∷ h.before;
        refused = h.refused;
        after = h.after;
        whole = ap (◌∷◌ s) h.whole;
        good = (a, h.good);
        why =
            let n : step + length (s ∷ h.before) ≡ step + 1 + length h.before = omega arith in
            rw n h.why;
      }

      go :
          (r : Result MissionError Unit)
          → StepVerdict step s r
          → (rest : Result MissionError Unit) → Checked (step + 1) ss rest
          → Checked step (s ∷ ss) (elim r [ ok _ ↦ rest | err e ↦ err e ])
      go (ok tt) e rest h = later rest e h
      go (err x) e rest h = record {
        before = [];
        refused = s;
        after = ss;
        whole = refl;
        good = tt;
        why = let n : step + 0 ≡ step = omega arith in rw n e;
      }

  -- The verdict on a whole list: accepted as it is when it has 1 to 64 steps, all of them accepted;
  -- else the error says that it is empty, that it is too long, or which step is the first refused and
  -- why.
  abbrev pub Verdict : List (SequenceStep A) → Result MissionError (List (SequenceStep A)) → Type 0
  Verdict steps (ok same) =
      (same ≡ steps) × (1 ≤ length steps) × (length steps ≤ mission_max_steps) × AllAccepted steps
  Verdict steps (err e) =
      ((e ≡ mission_empty) × (steps ≡ []))
      ⊎ (((e ≡ mission_too_long (length steps)) × (mission_max_steps < length steps))
          ⊎ FirstRefused 1 steps e)

  pub validate_sequence-Verdict :
      (steps : List (SequenceStep A)) → Verdict steps (validate_sequence caps kind steps)
  unfolding validate_sequence
  validate_sequence-Verdict [] = inl (refl, refl)
  validate_sequence-Verdict (s ∷ ss) =
      if_cases (Verdict (s ∷ ss)) (length (s ∷ ss) == 0) (λ empty. absurd (ground arith))
        (λ _.
          if_cases (Verdict (s ∷ ss)) (ltb mission_max_steps (length (s ∷ ss)))
            (λ long. inr (inl (refl, ground arith)))
            (λ fits.
              go (check_steps caps kind 1 (s ∷ ss)) (check_steps-Checked 1 (s ∷ ss))
                (ground arith)))
    where
      go :
          (r : Result MissionError Unit)
          → Checked 1 (s ∷ ss) r
          → length (s ∷ ss) ≤ mission_max_steps
          → Verdict (s ∷ ss) (elim r [ ok _ ↦ ok (s ∷ ss) | err e ↦ err e ])
      go (ok _) h fits = (refl, omega arith, fits, h)
      go (err e) h fits = inr (inr h)
