-- ===== src/Strategy/Runner.antt =====
-- What runner.ts exchanges with its caller: the searches that it asks for and what they return, the
-- trace, and the generator, a tree of questions whose leaves are the node's result. The caller may
-- take the published legs while a search runs, so that each answer comes with the log then left.
pub mod Geometry
pub mod Steps
pub mod Run
pub mod Paths
pub mod Delivers
mod Legs
pub mod Outcome
pub mod Bounds
pub mod Searches
pub mod Budget
pub mod Machine
use agentsimjs.Prelude.{ℕ, Bool, List, [], ◌∷◌, ◌++◌, Option, none, some}
use agentsimjs.Expr.Syntax.{Text}
use agentsimjs.Strategy.{Segment, StrategyAlgorithm, StrategyHeuristic}

pub data StageRole : Type 0 where
  plan_role coarse_role leg_role pass_role : StageRole

pub data Status : Type 0 where
  found not_found budget_exceeded : Status

-- `W` are the numbers of weights and costs.
pub record StageSpec (W : Type 0) : Type 0 where
  pub path : List Segment
  pub role : StageRole
  pub searched_by : StrategyAlgorithm
  pub weight : Option W
  pub heuristic : StrategyHeuristic
  pub stage_budget : Option ℕ
  pub from : ℕ
  pub to : ℕ
  pub start_dir : Option ℕ
  pub coarse_only : Bool

pub record StageResult (W : Type 0) : Type 0 where
  pub status : Status
  pub cells : List ℕ
  pub cost : W
  pub expansions : ℕ
  pub waypoints : Option (List ℕ)

pub record StageFeedback (W : Type 0) : Type 0 where
  pub result : StageResult W
  pub geometry : Option (List (W × W))
  pub remaining_after : ℕ
  pub started_tick : ℕ
  pub ended_tick : ℕ

pub record NodeResult (W : Type 0) : Type 0 where
  pub status : Status
  pub cells : List ℕ
  pub cost : W
  pub waypoints : Option (List ℕ)

pub record LegReady (W : Type 0) : Type 0 where
  pub index : ℕ
  pub count : ℕ
  pub cells : List ℕ
  pub cost : W
  pub last : Bool

-- The else branch is `none`.
pub record SelectTrace (W : Type 0) : Type 0 where
  pub path : List Segment
  pub branch : Option ℕ
  pub values : List (Text × W)

pub record SearchTrace (W : Type 0) : Type 0 where
  pub path : List Segment
  pub role : StageRole
  pub searched_by : StrategyAlgorithm
  pub weight : Option W
  pub heuristic : StrategyHeuristic
  pub stage_budget : Option ℕ
  pub expansions : ℕ
  pub status : Status
  pub started_tick : ℕ
  pub ended_tick : ℕ
  pub waypoints : Option (List (W × W))

pub record Thinned : Type 0 where
  pub legs : ℕ
  pub kept : ℕ

pub record Log (W : Type 0) : Type 0 where
  pub selects : List (SelectTrace W)
  pub searches : List (SearchTrace W)
  pub thinned : Option Thinned
  pub legs : List (LegReady W)

-- `Gen`; it throws where a condition no longer compiles.
pub data Gen (W : Type 0) : Type 0 where
  finished : NodeResult W → Log W → Gen W
  search : StageSpec W → Log W → (StageFeedback W → Log W → Gen W) → Gen W
  threw_error : Gen W

-- `yield*`: what follows a node's result
unfoldable pub then_run : {W : Type 0} → Gen W → (NodeResult W → Log W → Gen W) → Gen W
then_run (finished r log) k = k r log
then_run (search spec log answer) k = search spec log (λ fb log'. then_run (answer fb log') k)
then_run threw_error k = threw_error

unfoldable pub record_search : {W : Type 0} → StageSpec W → StageFeedback W → Log W → Log W
record_search spec fb log = record log {
  searches =
      log.searches
      ++ record {
        path = spec.path;
        role = spec.role;
        searched_by = spec.searched_by;
        weight = spec.weight;
        heuristic = spec.heuristic;
        stage_budget = spec.stage_budget;
        expansions = fb.result.expansions;
        status = fb.result.status;
        started_tick = fb.started_tick;
        ended_tick = fb.ended_tick;
        waypoints = fb.geometry;
      }
        ∷ [];
}
