-- ===== src/Availability/Tests.antt =====
-- A drone on the ground, asked to land.
use agentsimjs.Prelude.{◌≡◌, refl, true, false, [], ◌∷◌, none, some}
use agentsimjs.Availability.{AgentFacts, Capability, precondition_failed, command_availability}
use agentsimjs.Mission.{includes}
use agentsimjs.Availability.Verdict.{Verdict, command_availability-Verdict}

abbrev parked : AgentFacts
parked = record {
  kind = "uav";
  airborne = false;
  soc_empty = false;
  has_base = true;
  has_range_sensor = false;
}

abbrev caps : Capability
caps = record {
  vehicles = λ name. "uav" ∷ [];
  preconditions = λ name.
      record { name = "hasBase"; vehicles = none }
      ∷ record { name = "airborne"; vehicles = none }
      ∷ [];
}

command_availability-Verdict_example :
    Verdict parked caps "land" (command_availability caps "land" parked)
command_availability-Verdict_example = command_availability-Verdict parked caps "land"

must_fly : command_availability caps "land" parked ≡ some (precondition_failed "airborne")
unfolding command_availability includes
must_fly = refl
