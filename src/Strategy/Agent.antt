-- ===== src/Strategy/Agent.antt =====
-- checkStrategyForAgent of validate.ts and the `leaves` that it goes over.
pub mod Fits
use agentsimjs.Prelude.{
  ℕ, zero, suc, ◌+◌, Bool, true, false, ◌&&◌, List, [], ◌∷◌, ◌++◌, Option, none, some, ok, err,
  ◌>>◌, ltb, if◌then◌else◌,
}
use agentsimjs.Strategy.{
  StrategyAlgorithm, hpa, Segment, branches, stages, else_branch, coarse, local,
}
use agentsimjs.Strategy.Tree.{
  StrategyNode, algorithm, anytime, select, fallback, refine, Stages, nil, cons, Branches, end,
  branch, size, is_hpa,
}
use agentsimjs.Strategy.Document.{
  stage_budget_exceeds_total, profile_feature_unsupported, stage_budget_field, algorithm_field,
}
use agentsimjs.Strategy.Validate.{Checked, fail, refuse_if}

pub record Leaf (W : Type 0) : Type 0 where
  pub node : StrategyNode W
  pub path : List Segment

-- A stage with more than the agent's total budget.
unfoldable pub exceeds : Option ℕ → ℕ → Bool
exceeds none total = false
exceeds (some b) total = ltb total b

module _ {W : Type 0} where
  abbrev pub kid : StrategyNode W → List Segment → Segment → Leaf W
  kid n p s = record { node = n; path = p ++ s ∷ [] }

  unfoldable pub stage_kids : ℕ → Stages W → List Segment → List (Leaf W)
  stage_kids i nil p = []
  stage_kids i (cons n ns) p = kid n p (stages i) ∷ stage_kids (suc i) ns p

  unfoldable pub branch_kids : ℕ → Branches W → List Segment → List (Leaf W) → List (Leaf W)
  branch_kids i end p rest = rest
  branch_kids i (branch c n bs) p rest = kid n p (branches i) ∷ branch_kids (suc i) bs p rest

  -- The children in order; they are pushed in reverse, so that the first is popped first.
  unfoldable pub kids : StrategyNode W → List Segment → List (Leaf W)
  unfolding stage_kids branch_kids
  kids (select bs e) p = branch_kids 0 bs p (kid e p else_branch ∷ [])
  kids (fallback ns) p = stage_kids 0 ns p
  kids (refine c l lazy) p = kid c p coarse ∷ kid l p local ∷ []
  kids _ p = []

  unfoldable pub is_leaf : StrategyNode W → Bool
  is_leaf (algorithm a w h b) = true
  is_leaf (anytime ws h b) = true
  is_leaf _ = false

  -- The loop, on fuel: a round pops one node, so that the number of nodes suffices (`Fits`).
  unfoldable pub leaves_from : ℕ → List (Leaf W) → List (Leaf W)
  unfolding kids is_leaf
  leaves_from fuel [] = []
  leaves_from zero (it ∷ st) = []
  leaves_from (suc fuel) (it ∷ st) =
      let rest = leaves_from fuel (kids it.node it.path ++ st) in
      if is_leaf it.node then it ∷ rest else rest

  unfoldable pub leaves : StrategyNode W → List (Leaf W)
  unfolding leaves_from size
  leaves root = leaves_from (size root) (record { node = root; path = [] } ∷ [])

  -- The agent: its total budget, and whether its profile takes account of turns.
  unfoldable pub check_leaf : ℕ → Bool → StrategyNode W → List Segment → Checked (Unit {0})
  unfolding exceeds is_hpa
  check_leaf total turn_aware (algorithm a w h b) p =
      refuse_if (exceeds b total) stage_budget_exceeds_total p stage_budget_field
      >> refuse_if (is_hpa a && turn_aware) profile_feature_unsupported p algorithm_field
  check_leaf total turn_aware (anytime ws h b) p =
      refuse_if (exceeds b total) stage_budget_exceeds_total p stage_budget_field
  check_leaf total turn_aware _ p = ok tt

  unfoldable pub check_leaves : ℕ → Bool → List (Leaf W) → Checked (Unit {0})
  unfolding check_leaf
  check_leaves total turn_aware [] = ok tt
  check_leaves total turn_aware (l ∷ ls) =
      check_leaf total turn_aware l.node l.path >> check_leaves total turn_aware ls

  unfoldable pub check_strategy_for_agent : ℕ → Bool → StrategyNode W → Checked (Unit {0})
  unfolding check_leaves leaves
  check_strategy_for_agent total turn_aware root = check_leaves total turn_aware (leaves root)
