-- ===== src/Strategy/Runner/Steps.antt =====
-- StrategyRunner.run of runner.ts, its leaves: a single search and the passes of an anytime node.
use agentsimjs.Prelude.{
  ℕ, suc, ◌+◌, ◌-◌, Bool, true, false, List, [], ◌∷◌, ◌++◌, Option, none, some, ◌==◌, if◌then◌else◌,
}
use agentsimjs.Expr.Syntax.{Text, Numbers, Context}
use agentsimjs.Expr.Compile.{insert}
use agentsimjs.Strategy.{
  StrategyAlgorithm, weighted_astar, hpa, StrategyHeuristic, octile, Segment, weights,
}
use agentsimjs.Strategy.Runner.{
  StageRole, plan_role, coarse_role, pass_role, Status, found, not_found, budget_exceeded,
  StageSpec, StageResult, StageFeedback, NodeResult, Log, Gen, finished, search, record_search,
}

unfoldable pub is_found : Status → Bool
is_found found = true
is_found _ = false

unfoldable pub is_coarse : StageRole → Bool
is_coarse coarse_role = true
is_coarse _ = false

unfoldable pub is_plan : StageRole → Bool
is_plan plan_role = true
is_plan _ = false

unfoldable pub coarse_search : StageRole → StrategyAlgorithm → Bool
coarse_search coarse_role hpa = true
coarse_search _ _ = false

abbrev pub or_else {ℓ} : {A : Type ℓ} → Option A → A → A
or_else none a = a
or_else (some b) a = b

unfoldable pub insert_all : List Text → List Text → List Text
insert_all [] names = names
insert_all (v ∷ vs) names = insert_all vs (insert v names)

-- The numbers, infinity, the smoothed path of a path, the width of the grid, and the numbers of the
-- conditions' context.
module _ (N : Numbers) (infinity : N.F) (ctx : Context) (waypoints_of : List ℕ → List ℕ)
    (size_x : ℕ) (values : Text → Option N.F) where
  open N use {F, nan, zero_f, add_f, lt_f}

  abbrev pub failed : Status → NodeResult F
  failed s = record { status = s; cells = []; cost = infinity; waypoints = none }

  abbrev pub value_of : Text → F
  value_of v = or_else (values v) nan

  abbrev pub found_path : List ℕ → F → NodeResult F
  found_path cells cost = record { status = found; cells = cells; cost = cost; waypoints = none }

  -- a path, with its waypoints where a coarse one is wanted
  unfoldable pub answer : StageRole → List ℕ → F → NodeResult F
  unfolding is_coarse
  answer role cells cost = record (found_path cells cost) {
    waypoints = if is_coarse role then some (waypoints_of cells) else none;
  }

  unfoldable pub algorithm_result : StageRole → StageResult F → NodeResult F
  unfolding answer is_coarse
  algorithm_result role r = elim r.status [
    | found ↦ elim r.waypoints [
      | none ↦ answer role r.cells r.cost
      | some ws ↦ record (found_path r.cells r.cost) {
        waypoints = if is_coarse role then some ws else none;
      }
    ]
    | not_found ↦ failed not_found
    | budget_exceeded ↦ failed budget_exceeded
  ]

  unfoldable pub run_algorithm :
      StrategyAlgorithm
      → Option F
      → Option StrategyHeuristic
      → Option ℕ
      → List Segment
      → ℕ
      → ℕ
      → Option ℕ
      → StageRole
      → Log F
      → Gen F
  unfolding coarse_search algorithm_result record_search
  run_algorithm a w h b path from to dir role log =
      let spec : StageSpec F = record {
        path = path;
        role = role;
        searched_by = a;
        weight = w;
        heuristic = or_else h octile;
        stage_budget = b;
        from = from;
        to = to;
        start_dir = dir;
        coarse_only = coarse_search role a;
      } in
      search spec log
        (λ fb log'. finished (algorithm_result role fb.result) (record_search spec fb log'))

  -- what the passes of an anytime node have given: the best path with its cost, if there is one
  unfoldable pub anytime_result : StageRole → Option (List ℕ × F) → Status → NodeResult F
  unfolding answer
  anytime_result role (some (cells, cost)) failure = answer role cells cost
  anytime_result role none failure = failed failure

  unfoldable pub better : Option (List ℕ × F) → StageResult F → Option (List ℕ × F)
  better none r = some (r.cells, r.cost)
  better (some (cells, cost)) r =
      if lt_f r.cost cost then some (r.cells, r.cost) else some (cells, cost)

  -- what is left of the node's own cap; none where it has none
  abbrev pub left_of : Option ℕ → ℕ → Option ℕ
  left_of none spent = none
  left_of (some b) spent = some (b - spent)

  abbrev pub is_spent : Option ℕ → Bool
  is_spent none = false
  is_spent (some left) = left == 0

  unfoldable pub passes :
      ℕ
      → List F
      → Option StrategyHeuristic
      → Option ℕ
      → Option (List ℕ × F)
      → ℕ
      → List Segment
      → ℕ
      → ℕ
      → Option ℕ
      → StageRole
      → Log F
      → Gen F
  unfolding anytime_result better record_search is_found
  passes k [] h b best spent path from to dir role log =
      finished (anytime_result role best not_found) log
  passes k (w ∷ ws) h b best spent path from to dir role log =
      let spec : StageSpec F = record {
        path = path ++ weights k ∷ [];
        role = pass_role;
        searched_by = weighted_astar;
        weight = some w;
        heuristic = or_else h octile;
        stage_budget = left_of b spent;
        from = from;
        to = to;
        start_dir = dir;
        coarse_only = false;
      } in
      let next : StageFeedback F → Log F → Gen F = λ fb log'.
        passes (suc k) ws h b (better best fb.result) (spent + fb.result.expansions) path from to
          dir role log' in
      if is_spent (left_of b spent)
      then finished (anytime_result role best not_found) log
      else search spec log (λ fb log'.
        if is_found fb.result.status
        then next fb (record_search spec fb log')
        else finished (anytime_result role best fb.result.status) (record_search spec fb log'))
