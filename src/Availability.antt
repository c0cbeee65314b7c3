-- ===== src/Availability.antt =====
-- packages/core/src/actions/availability.ts: whether an action can be started now. The capability
-- definitions are an argument, and the charge of the battery is what the test `soc <= 0` says of it.
pub mod Verdict
mod Tests
use agentsimjs.Prelude.{
  String, Bool, true, false, not, ◌&&◌, List, [], ◌∷◌, Option, none, some, if◌then◌else◌,
}
use text.Mathlib.Text.{◌==◌ as str_eq}
use agentsimjs.Mission.{includes}

pub data Unavailable : Type 0 where
  vehicle_unsupported battery_depleted : Unavailable
  precondition_failed : String → Unavailable

pub record AgentFacts : Type 0 where
  pub kind : String
  pub airborne : Bool
  pub soc_empty : Bool
  pub has_base : Bool
  pub has_range_sensor : Bool

pub record Precondition : Type 0 where
  pub name : String
  pub vehicles : Option (List String)

pub record Capability : Type 0 where
  pub vehicles : String → List String
  pub preconditions : String → List Precondition

unfoldable pub precondition_holds : String → AgentFacts → Bool
precondition_holds precondition f =
    if str_eq precondition "airborne"
    then str_eq f.kind "uav" && f.airborne
    else if str_eq precondition "grounded"
    then str_eq f.kind "uav" && not f.airborne
    else if str_eq precondition "hasBase"
    then f.has_base
    else if str_eq precondition "hasRangeSensor"
    then f.has_range_sensor
    else false

-- A precondition applies to the vehicles that it lists, or to all.
unfoldable pub applies : Precondition → AgentFacts → Bool
applies p f = elim p.vehicles [ none ↦ true | some kinds ↦ includes kinds f.kind ]

-- The loop over the preconditions.
unfoldable pub first_failing : List Precondition → AgentFacts → Option Unavailable
unfolding precondition_holds applies
first_failing [] f = none
first_failing (p ∷ ps) f =
    let rest = first_failing ps f in
    if not (applies p f)
    then rest
    else if precondition_holds p.name f
    then rest
    else some (precondition_failed p.name)

unfoldable pub vehicle_availability : Capability → String → String → Option Unavailable
vehicle_availability caps name kind =
    if includes (caps.vehicles name) kind then none else some vehicle_unsupported

unfoldable pub state_availability : Capability → String → AgentFacts → Option Unavailable
unfolding first_failing
state_availability caps name f =
    if f.soc_empty then some battery_depleted else first_failing (caps.preconditions name) f

unfoldable pub command_availability : Capability → String → AgentFacts → Option Unavailable
unfolding vehicle_availability state_availability
command_availability caps name f = elim (vehicle_availability caps name f.kind) [
  | some u ↦ some u
  | none ↦ state_availability caps name f
]
