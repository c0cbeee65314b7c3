-- ===== src/Strategy.antt =====
-- packages/algorithms/src/planning/strategy: planning strategies, the trees that say how an agent's
-- planner combines its searches. Weights, costs and conditions go by the numbers of Expr.
pub mod Tree
pub mod Facts
pub mod Contains
pub mod Document
pub mod Validate
pub mod InOrder
pub mod Valid
pub mod Runner
pub mod Agent
mod Tests
use agentsimjs.Prelude.{ℕ}

-- STRATEGY_LIMITS, less the two of the document's text; the range of weights is an argument.
abbrev pub max_depth : ℕ
max_depth = 6

abbrev pub max_nodes : ℕ
max_nodes = 32

abbrev pub max_fallback_stages : ℕ
max_fallback_stages = 4

abbrev pub max_anytime_weights : ℕ
max_anytime_weights = 6

abbrev pub max_legs : ℕ
max_legs = 64

abbrev pub max_stage_budget : ℕ
max_stage_budget = 10_000_000

pub data StrategyAlgorithm : Type 0 where
  dijkstra astar weighted_astar hpa : StrategyAlgorithm

pub data StrategyHeuristic : Type 0 where
  octile euclidean : StrategyHeuristic

-- Where a node stands in the tree: `/root/stages/1` is the list of its segments below the root.
pub data Segment : Type 0 where
  branches stages local_leg weights : ℕ → Segment
  else_branch coarse local : Segment
