-- ===== src/Strategy/Validate.antt =====
-- validatePlanningStrategy of validate.ts: an explicit stack in document order, bounded by the limits
-- on depth and nodes. `own` is what the body of the loop checks of a node, `items` what it pushes.
use agentsimjs.Prelude.{
  ℕ, zero, suc, ◌+◌, Bool, true, false, not, ◌&&◌, ◌||◌, List, [], ◌∷◌, ◌++◌, Option, none, some,
  Result, ok, err, ◌>>◌, ltb, length, if◌then◌else◌,
}
use agentsimjs.Expr.Syntax.{Text, Numbers, Context, boolean}
use agentsimjs.Expr.Compile.{compile_expr}
use agentsimjs.Strategy.{
  max_depth, max_nodes, max_fallback_stages, max_anytime_weights, max_stage_budget,
  StrategyAlgorithm, astar, weighted_astar, StrategyHeuristic, octile, euclidean, Segment, branches,
  stages, else_branch, coarse, local,
}
use agentsimjs.Strategy.Document.{
  Fault, not_object, unknown_kind, issue, RawNode, malformed, raw_algorithm, raw_anytime,
  raw_select, raw_select_no_else, raw_fallback, raw_refine, RawStages, raw_nil, raw_cons,
  RawBranches, raw_end, raw_branch, algorithm_of, StrategyErrorCode, invalid_strategy,
  strategy_too_large, strategy_too_deep, unknown_algorithm, weight_out_of_range,
  budget_out_of_range, anytime_weights_invalid, select_missing_else, condition_variable_unavailable,
  heuristic_not_admissible, condition, Field, whole, kind_field, issue_at, algorithm_field,
  weight_field, heuristic_field, stage_budget_field, weights_field, else_field, stages_field,
  weight_at, when_at, StrategyError,
}

-- A node on the stack. A lazy refine may sit at the root, or below select branches only.
pub record Item (W : Type 0) : Type 0 where
  pub node : RawNode W
  pub path : List Segment
  pub depth : ℕ
  pub lazy_ok : Bool

pub record StrategyValidationOptions : Type 0 where
  pub four_connected : Bool
  pub unavailable : Text → Bool

abbrev pub Checked : Type 0 → Type 0
Checked A = Result StrategyError A

abbrev pub fail : {A : Type 0} → StrategyErrorCode → List Segment → Field → Checked A
fail c p f = err (record { error_code = c; path = p; field = f })

abbrev pub refuse_if : Bool → StrategyErrorCode → List Segment → Field → Checked (Unit {0})
refuse_if b c p f = if b then fail c p f else ok tt

-- The field that an error about a node's shape names.
unfoldable pub fault_field : Fault → Field
fault_field not_object = whole
fault_field unknown_kind = kind_field
fault_field (issue at) = issue_at at

unfoldable pub has_heuristic : StrategyAlgorithm → Bool
has_heuristic astar = true
has_heuristic weighted_astar = true
has_heuristic _ = false

unfoldable pub check_budget : Option ℕ → List Segment → Checked (Unit {0})
check_budget none p = ok tt
check_budget (some b) p =
    refuse_if (ltb b 1 || ltb max_stage_budget b) budget_out_of_range p stage_budget_field

unfoldable pub length_stages : {W : Type 0} → RawStages W → ℕ
length_stages raw_nil = 0
length_stages (raw_cons n ns) = suc (length_stages ns)

unfoldable pub any_unavailable : (Text → Bool) → List Text → Bool
any_unavailable p [] = false
any_unavailable p (v ∷ vs) = p v || any_unavailable p vs

module _ (N : Numbers) (in_range : N.F → Bool) (ctx : Context)
    (opts : StrategyValidationOptions) where
  open N use {F, le_f}

  unfoldable pub check_heuristic : Option StrategyHeuristic → List Segment → Checked (Unit {0})
  check_heuristic (some octile) p =
      refuse_if opts.four_connected heuristic_not_admissible p heuristic_field
  check_heuristic (some euclidean) p = ok tt
  check_heuristic none p = ok tt

  unfoldable pub check_weight : StrategyAlgorithm → Option F → List Segment → Checked (Unit {0})
  check_weight weighted_astar none p = fail invalid_strategy p weight_field
  check_weight weighted_astar (some w) p =
      refuse_if (not (in_range w)) weight_out_of_range p weight_field
  check_weight a none p = ok tt
  check_weight a (some w) p = fail invalid_strategy p weight_field

  unfoldable pub check_parameter :
      StrategyAlgorithm → Option StrategyHeuristic → List Segment → Checked (Unit {0})
  unfolding has_heuristic
  check_parameter a none p = ok tt
  check_parameter a (some h) p =
      refuse_if (not (has_heuristic a)) invalid_strategy p heuristic_field

  unfoldable pub check_ranges : ℕ → List F → List Segment → Checked (Unit {0})
  check_ranges i [] p = ok tt
  check_ranges i (w ∷ ws) p =
      refuse_if (not (in_range w)) weight_out_of_range p (weight_at i) >> check_ranges (suc i) ws p

  -- the loop from the second weight on, whose index is `i`
  unfoldable pub check_decrease : ℕ → F → List F → List Segment → Checked (Unit {0})
  check_decrease i previous [] p = ok tt
  check_decrease i previous (w ∷ ws) p =
      refuse_if (le_f previous w) anytime_weights_invalid p (weight_at i)
      >> check_decrease (suc i) w ws p

  unfoldable pub check_weights : List F → List Segment → Checked (Unit {0})
  unfolding check_ranges check_decrease
  check_weights [] p = ok tt
  check_weights (w ∷ ws) p = check_ranges 0 (w ∷ ws) p >> check_decrease 1 w ws p

  unfoldable pub check_condition : ℕ → Text → List Segment → Checked (Unit {0})
  unfolding any_unavailable
  check_condition i when p = elim (compile_expr N when ctx boolean) [
    | err e ↦ fail (condition e.error_code) p (when_at i)
    | ok c ↦
        refuse_if (any_unavailable opts.unavailable c.variables) condition_variable_unavailable p
          (when_at i)
  ]

  unfoldable pub check_conditions : ℕ → RawBranches F → List Segment → Checked (Unit {0})
  unfolding check_condition
  check_conditions i raw_end p = ok tt
  check_conditions i (raw_branch when n bs) p =
      check_condition i when p >> check_conditions (suc i) bs p

  unfoldable pub own : RawNode F → List Segment → Bool → Checked (Unit {0})
  unfolding check_weight check_parameter check_heuristic check_budget check_weights check_conditions
      length_stages fault_field
  own (malformed f) p lazy_ok = fail invalid_strategy p (fault_field f)
  own (raw_algorithm name w h b) p lazy_ok = elim (algorithm_of name) [
    | none ↦ fail unknown_algorithm p algorithm_field
    | some a ↦
        check_weight a w p >> (check_parameter a h p >> (check_heuristic h p >> check_budget b p))
  ]
  own (raw_anytime ws h b) p lazy_ok =
      refuse_if (ltb max_anytime_weights (length ws)) strategy_too_large p weights_field
      >> (check_weights ws p >> (check_heuristic h p >> check_budget b p))
  own (raw_select_no_else bs) p lazy_ok = fail select_missing_else p else_field
  own (raw_select bs e) p lazy_ok = check_conditions 0 bs p
  own (raw_fallback ns) p lazy_ok =
      refuse_if (ltb max_fallback_stages (length_stages ns)) strategy_too_large p stages_field
      >> refuse_if (ltb (length_stages ns) 2) invalid_strategy p stages_field
  own (raw_refine c l lazy) p lazy_ok = refuse_if (lazy && not lazy_ok) invalid_strategy p whole

module _ {W : Type 0} where
  abbrev pub child : RawNode W → List Segment → Segment → ℕ → Bool → Item W
  child n p s d lazy = record { node = n; path = p ++ s ∷ []; depth = d + 1; lazy_ok = lazy }

  unfoldable pub stage_items : ℕ → RawStages W → List Segment → ℕ → List (Item W)
  stage_items i raw_nil p d = []
  stage_items i (raw_cons n ns) p d = child n p (stages i) d false ∷ stage_items (suc i) ns p d

  unfoldable pub branch_items :
      ℕ → RawBranches W → List Segment → ℕ → Bool → List (Item W) → List (Item W)
  branch_items i raw_end p d lazy rest = rest
  branch_items i (raw_branch c n bs) p d lazy rest =
      child n p (branches i) d lazy ∷ branch_items (suc i) bs p d lazy rest

  -- The children in document order; they are pushed in reverse, so that the first is popped first.
  unfoldable pub items : RawNode W → List Segment → ℕ → Bool → List (Item W)
  unfolding stage_items branch_items
  items (raw_select bs e) p d lazy = branch_items 0 bs p d lazy (child e p else_branch d lazy ∷ [])
  items (raw_fallback ns) p d lazy = stage_items 0 ns p d
  items (raw_refine c l z) p d lazy = child c p coarse d false ∷ child l p local d false ∷ []
  items _ p d lazy = []

module _ (N : Numbers) (in_range : N.F → Bool) (ctx : Context)
    (opts : StrategyValidationOptions) where
  open N use {F}

  -- The loop, with `left` nodes below the limit: `++count > maxNodes` where none is left.
  unfoldable pub walk : ℕ → List (Item F) → Checked (Unit {0})
  unfolding own items
  walk left [] = ok tt
  walk zero (i ∷ st) =
      refuse_if (ltb max_depth i.depth) strategy_too_deep i.path whole
      >> fail strategy_too_large i.path whole
  walk (suc left) (i ∷ st) =
      let rest = walk left (items i.node i.path i.depth i.lazy_ok ++ st) in
      refuse_if (ltb max_depth i.depth) strategy_too_deep i.path whole
      >> (own N in_range ctx opts i.node i.path i.lazy_ok >> rest)

  unfoldable pub validate_planning_strategy : RawNode F → Checked (Unit {0})
  unfolding walk
  validate_planning_strategy root =
      walk max_nodes (record { node = root; path = []; depth = 1; lazy_ok = true } ∷ [])
