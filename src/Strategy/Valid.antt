-- ===== src/Strategy/Valid.antt =====
-- What a strategy document has to satisfy, as predicates on it.
pub mod Decides
mod Own
pub mod Whole
pub mod Parsed
use agentsimjs.Prelude.{
  ℕ, zero, suc, ◌+◌, ◌≤◌, ◌≡◌, Bool, true, false, List, [], ◌∷◌, Option, none, some, length, ok,
}
use agentsimjs.Expr.Syntax.{Text, Numbers, Context, boolean}
use agentsimjs.Expr.Compile.{CompiledExpr, compile_expr}
use agentsimjs.Strategy.{
  max_depth, max_fallback_stages, max_anytime_weights, max_stage_budget, StrategyAlgorithm,
  weighted_astar, StrategyHeuristic, octile, euclidean,
}
use agentsimjs.Strategy.Document.{
  RawNode, malformed, raw_algorithm, raw_anytime, raw_select, raw_select_no_else, raw_fallback,
  raw_refine, RawStages, raw_nil, raw_cons, RawBranches, raw_end, raw_branch, algorithm_of,
}
use agentsimjs.Strategy.Validate.{
  StrategyValidationOptions, has_heuristic, length_stages, any_unavailable,
}

abbrev pub BudgetFits : Option ℕ → Type 0
BudgetFits none = Unit
BudgetFits (some b) = (1 ≤ b) × (b ≤ max_stage_budget)

-- Only the searches that read a heuristic may name one.
abbrev pub TakesHeuristic : StrategyAlgorithm → Option StrategyHeuristic → Type 0
TakesHeuristic a none = Unit
TakesHeuristic a (some h) = has_heuristic a ≡ true

module _ (N : Numbers) (in_range : N.F → Bool) (ctx : Context)
    (opts : StrategyValidationOptions) where
  open N use {F, le_f}

  -- The octile distance overestimates where an agent moves in four directions.
  abbrev pub Admissible : Option StrategyHeuristic → Type 0
  Admissible (some octile) = opts.four_connected ≡ false
  Admissible (some euclidean) = Unit
  Admissible none = Unit

  -- Weighted A* has a weight in range, no other search has one.
  abbrev pub WeightFits : StrategyAlgorithm → Option F → Type 0
  WeightFits weighted_astar none = ⊥
  WeightFits weighted_astar (some w) = in_range w ≡ true
  WeightFits a none = Unit
  WeightFits a (some w) = ⊥

  abbrev pub AllInRange : List F → Type 0
  AllInRange [] = Unit
  AllInRange (w ∷ ws) = (in_range w ≡ true) × AllInRange ws

  abbrev pub Decreasing : F → List F → Type 0
  Decreasing previous [] = Unit
  Decreasing previous (w ∷ ws) = (le_f previous w ≡ false) × Decreasing w ws

  abbrev pub WeightsFit : List F → Type 0
  WeightsFit [] = Unit
  WeightsFit (w ∷ ws) = AllInRange (w ∷ ws) × Decreasing w ws

  -- A condition is a boolean expression over variables that the situation has.
  abbrev pub ConditionsFit : RawBranches F → Type 0
  ConditionsFit raw_end = Unit
  ConditionsFit (raw_branch when n bs) =
      ((c : CompiledExpr F) × ((compile_expr N when ctx boolean ≡ ok c)
          × (any_unavailable opts.unavailable c.variables ≡ false)))
      × ConditionsFit bs

  abbrev pub AlgorithmFits :
      Option StrategyAlgorithm → Option F → Option StrategyHeuristic → Option ℕ → Type 0
  AlgorithmFits none w h b = ⊥
  AlgorithmFits (some a) w h b =
      WeightFits a w × (TakesHeuristic a h × (Admissible h × BudgetFits b))

  abbrev pub OwnFits : RawNode F → Bool → Type 0
  OwnFits (malformed f) lazy_ok = ⊥
  OwnFits (raw_algorithm name w h b) lazy_ok = AlgorithmFits (algorithm_of name) w h b
  OwnFits (raw_anytime ws h b) lazy_ok =
      (length ws ≤ max_anytime_weights) × (WeightsFit ws × (Admissible h × BudgetFits b))
  OwnFits (raw_select_no_else bs) lazy_ok = ⊥
  OwnFits (raw_select bs e) lazy_ok = ConditionsFit bs
  OwnFits (raw_fallback ns) lazy_ok =
      (length_stages ns ≤ max_fallback_stages) × (2 ≤ length_stages ns)
  OwnFits (raw_refine c l lazy) lazy_ok = lazy ≡ true → lazy_ok ≡ true

  unfoldable mutual
    -- A node at depth `d`, and all below it.
    pub Valid : RawNode F → ℕ → Bool → Type 0
    Valid (malformed f) d lazy_ok = ⊥
    Valid (raw_algorithm a w h b) d lazy_ok =
        (d ≤ max_depth) × OwnFits (raw_algorithm a w h b) lazy_ok
    Valid (raw_anytime ws h b) d lazy_ok = (d ≤ max_depth) × OwnFits (raw_anytime ws h b) lazy_ok
    Valid (raw_select_no_else bs) d lazy_ok = ⊥
    Valid (raw_select bs e) d lazy_ok =
        ((d ≤ max_depth) × OwnFits (raw_select bs e) lazy_ok)
        × (ValidBranches bs d lazy_ok × Valid e (d + 1) lazy_ok)
    Valid (raw_fallback ns) d lazy_ok =
        ((d ≤ max_depth) × OwnFits (raw_fallback ns) lazy_ok) × ValidStages ns d
    Valid (raw_refine c l lazy) d lazy_ok =
        ((d ≤ max_depth) × OwnFits (raw_refine c l lazy) lazy_ok)
        × (Valid c (d + 1) false × Valid l (d + 1) false)

    pub ValidStages : RawStages F → ℕ → Type 0
    ValidStages raw_nil d = Unit
    ValidStages (raw_cons n ns) d = Valid n (d + 1) false × ValidStages ns d

    pub ValidBranches : RawBranches F → ℕ → Bool → Type 0
    ValidBranches raw_end d lazy_ok = Unit
    ValidBranches (raw_branch c n bs) d lazy_ok =
        Valid n (d + 1) lazy_ok × ValidBranches bs d lazy_ok

unfoldable mutual
  pub raw_size : {W : Type 0} → RawNode W → ℕ
  raw_size (raw_select bs e) = 1 + (raw_size_branches bs + raw_size e)
  raw_size (raw_fallback ns) = 1 + raw_size_stages ns
  raw_size (raw_refine c l lazy) = 1 + (raw_size c + raw_size l)
  raw_size _ = 1

  pub raw_size_stages : {W : Type 0} → RawStages W → ℕ
  raw_size_stages raw_nil = 0
  raw_size_stages (raw_cons n ns) = raw_size n + raw_size_stages ns

  pub raw_size_branches : {W : Type 0} → RawBranches W → ℕ
  raw_size_branches raw_end = 0
  raw_size_branches (raw_branch c n bs) = raw_size n + raw_size_branches bs
