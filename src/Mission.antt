-- ===== src/Mission.antt =====
-- packages/core/src/world/sequence.ts: the `sequence` script mind, which runs an ordered list of
-- actions, and the check of such a list against the capability manifest. The manifest
-- (actions/ports.ts) is an argument; the arguments of an action are of an abstract type.
pub mod Order
pub mod Position
pub mod Check
mod Tests
use agentsimjs.Prelude.{
  ℕ, zero, suc, ◌+◌, ◌-◌, ◌*◌, ◌/◌, ◌%◌, String, Bool, true, false, not, ◌&&◌, List, [], ◌∷◌,
  Option, none, some, Result, ok, err, Outcome, returned, threw, ltb, leb, ◌==◌, length, get_elem?,
  if◌then◌else◌,
}
use text.Mathlib.Text.{◌==◌ as str_eq}

pub record SequenceStep (A : Type 0) : Type 0 where
  pub action : String
  pub args : Option A

abbrev pub mission_max_steps : ℕ
mission_max_steps = 64

-- What the manifest says: the names listed as actions, the vehicles of each, and its schema's
-- verdict on arguments; `no_args` is the empty object.
pub record Capabilities (A : Type 0) : Type 0 where
  pub is_action : String → Bool
  pub vehicles : String → List String
  pub accepts : String → A → Bool
  pub no_args : A

-- An error names its step (1-based) and the action.
pub data MissionError : Type 0 where
  mission_empty : MissionError
  mission_too_long : ℕ → MissionError
  unknown_action vehicle_unsupported invalid_args : ℕ → String → MissionError

pub data Event : Type 0 where
  start : Event
  action_completed : String → Event
  -- the name, whether it was preempted rather than failed, and the code
  action_failed : String → Bool → String → Event
  action_rejected : String → String → Event
  other : Event

pub data Status : Type 0 where
  refused failed preempted : Status

pub data Phase : Type 0 where
  ready running stopped done : Phase

pub data MissionNote : Type 0 where
  step_note : ℕ → ℕ → MissionNote
  done_note : ℕ → ℕ → MissionNote
  stop_note : ℕ → ℕ → Status → String → String → MissionNote

pub data Envelope (A : Type 0) : Type 0 where
  idle : Option MissionNote → Envelope A
  act : String → A → MissionNote → Envelope A

pub record Brain : Type 0 where
  pub cursor : ℕ
  pub phase : Phase

abbrev pub new_brain : Brain
new_brain = record { cursor = 0; phase = ready }

unfoldable pub includes : List String → String → Bool
includes [] s = false
includes (x ∷ xs) s = if str_eq x s then true else includes xs s

-- The rule is per action, and none resumes.
pub resumes_after_preemption : String → Bool
resumes_after_preemption action = false

pub has_start : List Event → Bool
has_start [] = false
has_start (start ∷ es) = true
has_start (e ∷ es) = has_start es

module _ {A : Type 0} (caps : Capabilities A) where
  pub args_of : SequenceStep A → A
  args_of s = elim s.args [ none ↦ caps.no_args | some a ↦ a ]

  unfoldable pub check_step : String → ℕ → SequenceStep A → Result MissionError Unit
  unfolding args_of includes
  check_step kind step s =
      if not (caps.is_action s.action)
      then err (unknown_action step s.action)
      else if not (includes (caps.vehicles s.action) kind)
      then err (vehicle_unsupported step s.action)
      else if not (caps.accepts s.action (args_of s))
      then err (invalid_args step s.action)
      else ok tt

  -- the loop over `steps.entries()`, from the 1-based number of its first step
  unfoldable pub check_steps : String → ℕ → List (SequenceStep A) → Result MissionError Unit
  check_steps kind step [] = ok tt
  check_steps kind step (s ∷ ss) = elim (check_step kind step s) [
    | ok _ ↦ check_steps kind (step + 1) ss
    | err e ↦ err e
  ]

  unfoldable pub validate_sequence :
      String → List (SequenceStep A) → Result MissionError (List (SequenceStep A))
  validate_sequence kind steps =
      if length steps == 0
      then err mission_empty
      else if ltb mission_max_steps (length steps)
      then err (mission_too_long (length steps))
      else elim (check_steps kind 1 steps) [ ok _ ↦ ok steps | err e ↦ err e ]

  module _ (steps : List (SequenceStep A)) where
    -- Past the end of the list the source fails on an `undefined` step; only the empty list, which
    -- `validateSequence` refuses, gets there.
    pub begin : ℕ → Brain → Envelope A × Brain
    unfolding args_of
    begin index b = elim (get_elem? steps index) [
      | none ↦ (idle none, b)
      | some s ↦ (
        act s.action (args_of s) (step_note (index + 1) (length steps)),
        record { cursor = index + 1; phase = running },
      )
    ]

    pub stop : Status → String → String → Brain → Envelope A × Brain
    stop status action code b = (
      idle (some (stop_note b.cursor (length steps) status action code)),
      record b { phase = stopped },
    )

    pub finish : Brain → Envelope A × Brain
    finish b = (idle (some (done_note b.cursor (length steps))), record b { phase = done })

    -- the loop over the events of a request, while the step named `action` runs
    pub react : String → List Event → Brain → Envelope A × Brain
    unfolding begin stop finish resumes_after_preemption
    react action [] b = (idle none, b)
    react action (action_rejected name code ∷ es) b =
        let rest = react action es b in
        if str_eq name action then stop refused action code b else rest
    react action (action_failed name was_preempted code ∷ es) b =
        let rest = react action es b in
        if str_eq name action
        then (if was_preempted && resumes_after_preemption action
            then begin (b.cursor - 1) b
            else stop (if was_preempted then preempted else failed) action code b)
        else rest
    react action (action_completed name ∷ es) b =
        let rest = react action es b in
        if str_eq name action
        then (if leb (length steps) b.cursor then finish b else begin b.cursor b)
        else rest
    react action (start ∷ es) b = react action es b
    react action (other ∷ es) b = react action es b

    react_running : List Event → Brain → Envelope A × Brain
    unfolding react
    react_running events b = elim (get_elem? steps (b.cursor - 1)) [
      | none ↦ (idle none, b)
      | some s ↦ react s.action events b
    ]

    next_in : Phase → List Event → Brain → Envelope A × Brain
    unfolding react_running has_start
    next_in ready events b = if has_start events then begin 0 b else (idle none, b)
    next_in running events b = react_running events b
    next_in stopped events b = (idle none, b)
    next_in done events b = (idle none, b)

    unfoldable pub next : List Event → Brain → Envelope A × Brain
    unfolding next_in
    next events b = next_in b.phase events b

abbrev pub phase_index : Phase → ℕ
phase_index ready = 0
phase_index running = 1
phase_index stopped = 2
phase_index done = 3

abbrev pub phase_at : ℕ → Phase
phase_at zero = ready
phase_at (suc zero) = running
phase_at (suc (suc zero)) = stopped
phase_at (suc (suc (suc n))) = done

pub position : Brain → ℕ
position b = b.cursor * 4 + phase_index b.phase

pub data PositionError : Type 0 where
  not_a_state : ℕ → PositionError

is_ready : Phase → Bool
is_ready ready = true
is_ready _ = false

-- `of` is the number of steps of the mission.
unfoldable pub restore_position : ℕ → ℕ → Brain → Outcome PositionError Unit Brain
unfolding is_ready
restore_position of p b =
    let cursor = p / 4 in
    let phase = phase_at (p % 4) in
    if leb cursor of && (if is_ready phase then cursor == 0 else leb 1 cursor)
    then returned tt (record { cursor = cursor; phase = phase })
    else threw (not_a_state p) b
