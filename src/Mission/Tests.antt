-- ===== src/Mission/Tests.antt =====
-- Missions of two and three steps.
use agentsimjs.Prelude.{ℕ, ◌≡◌, refl, String, true, List, [], ◌∷◌, none, returned, err, take, arith}
use agentsimjs.Mission.{
  SequenceStep, Capabilities, Event, start, action_completed, action_failed, action_rejected, other,
  Brain, new_brain, next, running, position, restore_position, unknown_action, validate_sequence,
  check_steps, check_step,
}
use agentsimjs.Mission.Order.{actions, serve, mission_in_order, IsState}
use agentsimjs.Mission.Position.{restore_position-position, position-restore_position}
use agentsimjs.Mission.Check.{Verdict, validate_sequence-Verdict}
use text.Mathlib.Text.{◌==◌ as str_eq}

abbrev step_of : String → SequenceStep ℕ
step_of name = record { action = name; args = none }

abbrev patrol : List (SequenceStep ℕ)
patrol = step_of "takeoff" ∷ step_of "explore" ∷ step_of "land" ∷ []

abbrev caps : Capabilities ℕ
caps = record {
  is_action = λ name. str_eq name "takeoff";
  vehicles = λ name. "uav" ∷ [];
  accepts = λ name a. true;
  no_args = 0;
}

abbrev requests : List (List Event)
requests =
    (other ∷ start ∷ [])
    ∷ (action_completed "takeoff" ∷ [])
    ∷ (action_rejected "land" "x" ∷ action_failed "explore" true "battery_low" ∷ [])
    ∷ (action_completed "explore" ∷ [])
    ∷ []

mission_in_order_example :
    (serve caps patrol requests new_brain).0
    ≡ take (serve caps patrol requests new_brain).1.cursor (actions patrol)
mission_in_order_example = mission_in_order caps patrol requests

mission_stops : (serve caps patrol requests new_brain).0 ≡ "takeoff" ∷ "explore" ∷ []
unfolding serve next
mission_stops = refl

abbrev at_second : Brain
at_second = record { cursor = 2; phase = running }

restore_position-position_example :
    restore_position 3 (position at_second) new_brain ≡ returned tt at_second
restore_position-position_example = restore_position-position 3 at_second new_brain (omega arith)

position-restore_position_example : IsState 3 at_second × (position at_second ≡ 9)
unfolding restore_position
position-restore_position_example = position-restore_position 3 9 new_brain

validate_sequence-Verdict_example : Verdict caps "uav" patrol (err (unknown_action 2 "explore"))
unfolding validate_sequence check_steps check_step
validate_sequence-Verdict_example = validate_sequence-Verdict caps "uav" patrol
