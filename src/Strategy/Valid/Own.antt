-- ===== src/Strategy/Valid/Own.antt =====
-- What `own` of Validate looks at in a node is what `OwnFits` says of it.
use agentsimjs.Prelude.{
  ℕ, suc, ◌≤◌, ◌≡◌, refl, sym, ap, Bool, true, false, not, ◌&&◌, ◌||◌, List, [], ◌∷◌, Option, none,
  some, length, ok, err, Result, ◌>>◌, ltb, arith,
}
use agentsimjs.Expr.Syntax.{Text, Numbers, Context, boolean, ExprError}
use agentsimjs.Expr.Compile.{CompiledExpr, compile_expr}
use agentsimjs.Strategy.{
  Segment, max_fallback_stages, max_anytime_weights, max_stage_budget, StrategyAlgorithm,
  weighted_astar, dijkstra, astar, hpa, StrategyHeuristic, octile, euclidean,
}
use agentsimjs.Strategy.Document.{
  RawNode, malformed, raw_algorithm, raw_anytime, raw_select, raw_select_no_else, raw_fallback,
  raw_refine, RawBranches, raw_end, raw_branch, algorithm_of, StrategyErrorCode, invalid_strategy,
  strategy_too_large, unknown_algorithm, weight_out_of_range, budget_out_of_range,
  anytime_weights_invalid, select_missing_else, condition_variable_unavailable,
  heuristic_not_admissible, condition, Field, whole, algorithm_field, weight_field, heuristic_field,
  stage_budget_field, weights_field, else_field, stages_field, weight_at, when_at,
}
use agentsimjs.Strategy.Validate.{
  StrategyValidationOptions, fail, refuse_if, has_heuristic, check_budget, length_stages,
  any_unavailable, check_heuristic, check_weight, check_parameter, check_ranges, check_decrease,
  check_weights, check_condition, check_conditions, own, fault_field,
}
use agentsimjs.Strategy.Valid.Decides.{
  Decides, Decides-fail, Decides-refuse_if, also, Decides-↔, Decides-at_most, passes,
}
use agentsimjs.Strategy.Valid.{
  BudgetFits, TakesHeuristic, Admissible, WeightFits, AllInRange, Decreasing, WeightsFit,
  ConditionsFit, AlgorithmFits, OwnFits,
}

check_budget-Decides :
    (b : Option ℕ) (p : List Segment) → Decides (λ _. BudgetFits b) (check_budget b p)
unfolding check_budget
check_budget-Decides none p = passes
check_budget-Decides (some b) p =
    Decides-refuse_if ((1 ≤ b) × (b ≤ max_stage_budget)) (ltb b 1 || ltb max_stage_budget b)
      budget_out_of_range p stage_budget_field (λ h. ground arith) (λ h. ground arith)

not_ : (b : Bool) → not b ≡ false → b ≡ true
not_ true h = refl
not_ false h = sym h

lazy_may : (lazy lazy_ok : Bool) → (lazy && not lazy_ok) ≡ false → lazy ≡ true → lazy_ok ≡ true
lazy_may lazy true h e = refl
lazy_may true false h e = sym h
lazy_may false false h e = e

may_lazy : (lazy lazy_ok : Bool) → (lazy ≡ true → lazy_ok ≡ true) → (lazy && not lazy_ok) ≡ false
may_lazy true lazy_ok h = ap not (h refl)
may_lazy false lazy_ok h = refl

module _ (N : Numbers) (in_range : N.F → Bool) (ctx : Context)
    (opts : StrategyValidationOptions) where
  open N use {F, le_f}

  refuse_unless :
      (b : Bool) (c : StrategyErrorCode) (p : List Segment) (f : Field)
      → Decides (λ _. b ≡ true) (refuse_if (not b) c p f)
  refuse_unless b c p f = Decides-refuse_if (b ≡ true) (not b) c p f (not_ b) (λ h. ap not h)

  refuse :
      (b : Bool) (c : StrategyErrorCode) (p : List Segment) (f : Field)
      → Decides (λ _. b ≡ false) (refuse_if b c p f)
  refuse b c p f = Decides-refuse_if (b ≡ false) b c p f (λ h. h) (λ h. h)

  check_parameter-Decides :
      (a : StrategyAlgorithm) (h : Option StrategyHeuristic) (p : List Segment)
      → Decides (λ _. TakesHeuristic a h) (check_parameter N in_range ctx opts a h p)
  unfolding check_parameter
  check_parameter-Decides a none p = passes
  check_parameter-Decides a (some h) p =
      refuse_unless (has_heuristic a) invalid_strategy p heuristic_field

  check_heuristic-Decides :
      (h : Option StrategyHeuristic) (p : List Segment)
      → Decides (λ _. Admissible N in_range ctx opts h) (check_heuristic N in_range ctx opts h p)
  unfolding check_heuristic
  check_heuristic-Decides (some octile) p =
      refuse opts.four_connected heuristic_not_admissible p heuristic_field
  check_heuristic-Decides (some euclidean) p = passes
  check_heuristic-Decides none p = passes

  check_weight-Decides :
      (a : StrategyAlgorithm) (w : Option F) (p : List Segment)
      → Decides (λ _. WeightFits N in_range ctx opts a w) (check_weight N in_range ctx opts a w p)
  unfolding check_weight
  check_weight-Decides weighted_astar none p = Decides-fail invalid_strategy p weight_field
  check_weight-Decides weighted_astar (some w) p =
      refuse_unless (in_range w) weight_out_of_range p weight_field
  check_weight-Decides astar none p = passes
  check_weight-Decides dijkstra none p = passes
  check_weight-Decides hpa none p = passes
  check_weight-Decides astar (some w) p = Decides-fail invalid_strategy p weight_field
  check_weight-Decides dijkstra (some w) p = Decides-fail invalid_strategy p weight_field
  check_weight-Decides hpa (some w) p = Decides-fail invalid_strategy p weight_field

  check_ranges-Decides :
      (i : ℕ) (ws : List F) (p : List Segment)
      → Decides (λ _. AllInRange N in_range ctx opts ws) (check_ranges N in_range ctx opts i ws p)
  unfolding check_ranges
  check_ranges-Decides i [] p = passes
  check_ranges-Decides i (w ∷ ws) p =
      also (refuse_unless (in_range w) weight_out_of_range p (weight_at i))
        (check_ranges-Decides (suc i) ws p)

  check_decrease-Decides :
      (i : ℕ) (previous : F) (ws : List F) (p : List Segment)
      → Decides
          (λ _. Decreasing N in_range ctx opts previous ws)
          (check_decrease N in_range ctx opts i previous ws p)
  unfolding check_decrease
  check_decrease-Decides i previous [] p = passes
  check_decrease-Decides i previous (w ∷ ws) p =
      also (refuse (le_f previous w) anytime_weights_invalid p (weight_at i))
        (check_decrease-Decides (suc i) w ws p)

  check_weights-Decides :
      (ws : List F) (p : List Segment)
      → Decides (λ _. WeightsFit N in_range ctx opts ws) (check_weights N in_range ctx opts ws p)
  unfolding check_weights
  check_weights-Decides [] p = passes
  check_weights-Decides (w ∷ ws) p =
      also (check_ranges-Decides 0 (w ∷ ws) p) (check_decrease-Decides 1 w ws p)

  -- the condition of one branch
  abbrev Fits : Text → Type 0
  Fits when =
      (c : CompiledExpr F) × ((compile_expr N when ctx boolean ≡ ok c)
        × (any_unavailable opts.unavailable c.variables ≡ false))

  check_condition-Decides :
      (i : ℕ) (when : Text) (p : List Segment)
      → Decides (λ _. Fits when) (check_condition N in_range ctx opts i when p)
  unfolding check_condition
  check_condition-Decides i when p = by_result (compile_expr N when ctx boolean)
    where
      by_result :
          (r : Result ExprError (CompiledExpr F))
          → Decides
              (λ _.
                (c : CompiledExpr F) × ((r ≡ ok c)
                  × (any_unavailable opts.unavailable c.variables ≡ false)))
              (elim r [
                | err e ↦ fail (condition e.error_code) p (when_at i)
                | ok c ↦
                    refuse_if
                      (any_unavailable opts.unavailable c.variables)
                      condition_variable_unavailable
                      p
                      (when_at i)
              ])
      by_result (ok c) =
          Decides-↔
            (λ _.
              (d : CompiledExpr F) × ((◌≡◌ {A = Result ExprError (CompiledExpr F)} (ok c) (ok d))
                × (any_unavailable opts.unavailable d.variables ≡ false)))
            (refuse_if (any_unavailable opts.unavailable c.variables) condition_variable_unavailable
              p (when_at i))
            (refuse (any_unavailable opts.unavailable c.variables) condition_variable_unavailable p
              (when_at i))
            (λ u q. (c, (refl, q))) (λ u (d, (e, q)). cc (e, q))
      by_result (err e) = record { sound = tt; complete = λ u (d, (h, q)). cc h }

  check_conditions-Decides :
      (i : ℕ) (bs : RawBranches F) (p : List Segment)
      → Decides
          (λ _. ConditionsFit N in_range ctx opts bs)
          (check_conditions N in_range ctx opts i bs p)
  unfolding check_conditions
  check_conditions-Decides i raw_end p = passes
  check_conditions-Decides i (raw_branch when n bs) p =
      also (check_condition-Decides i when p) (check_conditions-Decides (suc i) bs p)

  pub own-Decides :
      (n : RawNode F) (p : List Segment) (lazy_ok : Bool)
      → Decides (λ _. OwnFits N in_range ctx opts n lazy_ok) (own N in_range ctx opts n p lazy_ok)
  unfolding own
  own-Decides (malformed f) p lazy_ok = Decides-fail invalid_strategy p (fault_field f)
  own-Decides (raw_algorithm name w h b) p lazy_ok = by_algorithm (algorithm_of name)
    where
      by_algorithm :
          (o : Option StrategyAlgorithm)
          → Decides {A = Unit {0}}
              (λ _. AlgorithmFits N in_range ctx opts o w h b)
              (elim o [
                | none ↦ fail unknown_algorithm p algorithm_field
                | some a ↦
                    check_weight N in_range ctx opts a w p
                    >> (check_parameter N in_range ctx opts a h p
                        >> (check_heuristic N in_range ctx opts h p >> check_budget b p))
              ])
      by_algorithm none = Decides-fail unknown_algorithm p algorithm_field
      by_algorithm (some a) = also (check_weight-Decides a w p) (
          also (check_parameter-Decides a h p)
            (also (check_heuristic-Decides h p) (check_budget-Decides b p)))
  own-Decides (raw_anytime ws h b) p lazy_ok =
      also (Decides-at_most (length ws) max_anytime_weights strategy_too_large p weights_field) (
        also (check_weights-Decides ws p)
          (also (check_heuristic-Decides h p) (check_budget-Decides b p)))
  own-Decides (raw_select_no_else bs) p lazy_ok = Decides-fail select_missing_else p else_field
  own-Decides (raw_select bs e) p lazy_ok = check_conditions-Decides 0 bs p
  own-Decides (raw_fallback ns) p lazy_ok =
      also
        (Decides-at_most (length_stages ns) max_fallback_stages strategy_too_large p stages_field)
        (Decides-refuse_if (2 ≤ length_stages ns) (ltb (length_stages ns) 2) invalid_strategy p
          stages_field (λ h. ground arith) (λ h. ground arith))
  own-Decides (raw_refine c l lazy) p lazy_ok =
      Decides-refuse_if (lazy ≡ true → lazy_ok ≡ true) (lazy && not lazy_ok) invalid_strategy p
        whole (lazy_may lazy lazy_ok) (may_lazy lazy lazy_ok)
