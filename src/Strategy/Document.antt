-- ===== src/Strategy/Document.antt =====
-- A strategy document as it is read: nodes whose shape is checked (the schemas of schema.ts are a
-- library's; a value that fails them is `malformed`), before their meaning is.
use agentsimjs.Prelude.{ℕ, Bool, List, Option, none, some, if◌then◌else◌, codes}
use agentsimjs.Expr.Syntax.{Text, text_eq, ErrorCode}
use agentsimjs.Strategy.{
  Segment, StrategyAlgorithm, dijkstra, astar, weighted_astar, hpa, StrategyHeuristic,
}
use agentsimjs.Strategy.Tree.{
  StrategyNode, algorithm, anytime, select, fallback, refine, Stages, nil, cons, Branches, end,
  branch,
}

-- What is wrong with the shape of a node; the library's check of a schema says where, from the node on.
pub data Fault : Type 0 where
  not_object unknown_kind : Fault
  issue : Text → Fault

-- The algorithm is a text; an integer below 1 stands as 0 among budgets.
mutual
  pub data RawNode (W : Type 0) : Type 0 where
    malformed : Fault → RawNode W
    raw_algorithm : Text → Option W → Option StrategyHeuristic → Option ℕ → RawNode W
    raw_anytime : List W → Option StrategyHeuristic → Option ℕ → RawNode W
    raw_select : RawBranches W → RawNode W → RawNode W
    raw_select_no_else : RawBranches W → RawNode W
    raw_fallback : RawStages W → RawNode W
    raw_refine : RawNode W → RawNode W → Bool → RawNode W

  pub data RawStages (W : Type 0) : Type 0 where
    raw_nil : RawStages W
    raw_cons : RawNode W → RawStages W → RawStages W

  pub data RawBranches (W : Type 0) : Type 0 where
    raw_end : RawBranches W
    raw_branch : Text → RawNode W → RawBranches W → RawBranches W

-- STRATEGY_ALGORITHMS
abbrev pub name_of : StrategyAlgorithm → Text
name_of dijkstra = codes "dijkstra"
name_of astar = codes "astar"
name_of weighted_astar = codes "weighted-astar"
name_of hpa = codes "hpa"

unfoldable pub algorithm_of : Text → Option StrategyAlgorithm
algorithm_of t =
    if text_eq t (name_of dijkstra)
    then some dijkstra
    else if text_eq t (name_of astar)
    then some astar
    else if text_eq t (name_of weighted_astar)
    then some weighted_astar
    else if text_eq t (name_of hpa)
    then some hpa
    else none

-- The document of a strategy tree.
unfoldable mutual
  pub document : {W : Type 0} → StrategyNode W → RawNode W
  document (algorithm a w h b) = raw_algorithm (name_of a) w h b
  document (anytime ws h b) = raw_anytime ws h b
  document (select bs e) = raw_select (document_branches bs) (document e)
  document (fallback ns) = raw_fallback (document_stages ns)
  document (refine c l lazy) = raw_refine (document c) (document l) lazy

  pub document_stages : {W : Type 0} → Stages W → RawStages W
  document_stages nil = raw_nil
  document_stages (cons n ns) = raw_cons (document n) (document_stages ns)

  pub document_branches : {W : Type 0} → Branches W → RawBranches W
  document_branches end = raw_end
  document_branches (branch c n bs) = raw_branch c (document n) (document_branches bs)

pub data StrategyErrorCode : Type 0 where
  invalid_strategy strategy_too_large strategy_too_deep unknown_algorithm : StrategyErrorCode
  weight_out_of_range budget_out_of_range anytime_weights_invalid select_missing_else :
      StrategyErrorCode
  condition_variable_unavailable heuristic_not_admissible : StrategyErrorCode
  stage_budget_exceeds_total profile_feature_unsupported : StrategyErrorCode
  -- a code of the expression grammar
  condition : ErrorCode → StrategyErrorCode

-- The value of a node that an error points at.
pub data Field : Type 0 where
  whole algorithm_field weight_field heuristic_field stage_budget_field weights_field : Field
  else_field stages_field kind_field : Field
  issue_at : Text → Field
  weight_at when_at : ℕ → Field

pub record StrategyError : Type 0 where
  pub error_code : StrategyErrorCode
  pub path : List Segment
  pub field : Field
