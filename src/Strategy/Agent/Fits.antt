-- ===== src/Strategy/Agent/Fits.antt =====
-- The check accepts a strategy exactly where each leaf of the tree suits the agent.
use agentsimjs.Prelude.{
  ℕ, zero, suc, ◌+◌, ◌≤◌, ◌≡◌, ◌↔◌, subst, refl, Accepts, Bool, false, ◌&&◌, List, [], ◌∷◌, ◌++◌,
  Option, none, some, ok, arith,
}
use agentsimjs.Strategy.{
  StrategyAlgorithm, dijkstra, astar, weighted_astar, hpa, Segment, else_branch,
}
use agentsimjs.Strategy.Tree.{
  StrategyNode, algorithm, anytime, select, fallback, refine, Stages, nil, cons, Branches, end,
  branch, size, size_stages, size_branches, is_hpa,
}
use agentsimjs.Strategy.Document.{
  stage_budget_exceeds_total, profile_feature_unsupported, stage_budget_field, algorithm_field,
}
use agentsimjs.Strategy.Validate.{refuse_if}
use agentsimjs.Strategy.Agent.{
  Leaf, kid, stage_kids, branch_kids, kids, is_leaf, leaves_from, leaves, exceeds, check_leaf,
  check_leaves, check_strategy_for_agent,
}
use agentsimjs.Strategy.Valid.Decides.{
  Decides, Decides-refuse_if, Decides-↔, Decides-at_most, also, passes,
}

abbrev pub Within : Option ℕ → ℕ → Type 0
Within none total = Unit
Within (some b) total = b ≤ total

-- No stage has more than the agent's total, and none plans by hpa where turns count.
unfoldable mutual
  pub FitsAgent : {W : Type 0} → StrategyNode W → ℕ → Bool → Type 0
  FitsAgent (algorithm a w h b) total turn_aware = Within b total × (a ≡ hpa → turn_aware ≡ false)
  FitsAgent (anytime ws h b) total turn_aware = Within b total
  FitsAgent (select bs e) total turn_aware =
      BranchesFit bs total turn_aware × FitsAgent e total turn_aware
  FitsAgent (fallback ns) total turn_aware = StagesFit ns total turn_aware
  FitsAgent (refine c l lazy) total turn_aware =
      FitsAgent c total turn_aware × FitsAgent l total turn_aware

  StagesFit : {W : Type 0} → Stages W → ℕ → Bool → Type 0
  StagesFit nil total turn_aware = Unit
  StagesFit (cons n ns) total turn_aware =
      FitsAgent n total turn_aware × StagesFit ns total turn_aware

  BranchesFit : {W : Type 0} → Branches W → ℕ → Bool → Type 0
  BranchesFit end total turn_aware = Unit
  BranchesFit (branch c n bs) total turn_aware =
      FitsAgent n total turn_aware × BranchesFit bs total turn_aware

check_exceeds :
    (b : Option ℕ) (total : ℕ) (p : List Segment)
    → Decides
        (λ _. Within b total)
        (refuse_if (exceeds b total) stage_budget_exceeds_total p stage_budget_field)
unfolding exceeds
check_exceeds none total p =
    Decides-refuse_if Unit false stage_budget_exceeds_total p stage_budget_field (λ _. tt)
      (λ _. refl)
check_exceeds (some b) total p =
    Decides-at_most b total stage_budget_exceeds_total p stage_budget_field

hpa_turns : (a : StrategyAlgorithm) (t : Bool) → ((is_hpa a && t) ≡ false) ↔ (a ≡ hpa → t ≡ false)
unfolding is_hpa
hpa_turns hpa t = (λ h _. h, λ h. h refl)
hpa_turns dijkstra t = (λ h e. cc e, λ h. refl)
hpa_turns astar t = (λ h e. cc e, λ h. refl)
hpa_turns weighted_astar t = (λ h e. cc e, λ h. refl)

module _ {W : Type 0} (total : ℕ) (turn_aware : Bool) where
  StackFits : List (Leaf W) → Type 0
  StackFits [] = Unit
  StackFits (it ∷ st) = FitsAgent it.node total turn_aware × StackFits st

  stack_size : List (Leaf W) → ℕ
  stack_size [] = 0
  stack_size (it ∷ st) = size it.node + stack_size st

  stage_kids_lem :
      (i : ℕ) (ns : Stages W) (p : List Segment) (st : List (Leaf W))
      → (StackFits (stage_kids i ns p ++ st) ↔ (StagesFit ns total turn_aware × StackFits st))
        × (stack_size (stage_kids i ns p ++ st) ≡ size_stages ns + stack_size st)
  unfolding stage_kids FitsAgent size StackFits stack_size
  stage_kids_lem i nil p st = ((λ h. (tt, h), λ (_, h). h), omega arith)
  stage_kids_lem i (cons n ns) p st =
      let ((f, g), e) = stage_kids_lem (suc i) ns p st in
      ((λ (a, h). let (b, c) = f h in ((a, b), c), λ ((a, b), c). (a, g (b, c))), omega arith)

  branch_kids_lem :
      (i : ℕ) (bs : Branches W) (p : List Segment) (rest st : List (Leaf W))
      → (StackFits (branch_kids i bs p rest ++ st)
          ↔ (BranchesFit bs total turn_aware × StackFits (rest ++ st)))
        × (stack_size (branch_kids i bs p rest ++ st) ≡ size_branches bs + stack_size (rest ++ st))
  unfolding branch_kids FitsAgent size StackFits stack_size
  branch_kids_lem i end p rest st = ((λ h. (tt, h), λ (_, h). h), omega arith)
  branch_kids_lem i (branch c n bs) p rest st =
      let ((f, g), e) = branch_kids_lem (suc i) bs p rest st in
      ((λ (a, h). let (b, c) = f h in ((a, b), c), λ ((a, b), c). (a, g (b, c))), omega arith)

  -- what is left to check fits
  LeftFits : ℕ → List (Leaf W) → Type 0
  LeftFits fuel st =
      Decides (λ _. StackFits st) (check_leaves total turn_aware (leaves_from fuel st))

  node_step :
      (n : StrategyNode W) (p : List Segment) (fuel : ℕ) (st : List (Leaf W))
      → size n + stack_size st ≤ suc fuel
      → ((st' : List (Leaf W)) → stack_size st' ≤ fuel → LeftFits fuel st')
      → Decides
          (λ _. FitsAgent n total turn_aware × StackFits st)
          (check_leaves total turn_aware
            (leaves_from (suc fuel) (record { node = n; path = p } ∷ st)))
  unfolding leaves_from check_leaves check_leaf kids is_leaf FitsAgent size StackFits stack_size
      LeftFits
  node_step (algorithm a w h b) p fuel st l next =
      let (to_fit, from_fit) = hpa_turns a turn_aware in
      also
        (also (check_exceeds b total p) (
          Decides-refuse_if (a ≡ hpa → turn_aware ≡ false) (is_hpa a && turn_aware)
            profile_feature_unsupported p algorithm_field to_fit from_fit))
        (next st (omega arith))
  node_step (anytime ws h b) p fuel st l next =
      also (check_exceeds b total p) (next st (omega arith))
  node_step (select bs e) p fuel st l next =
      let ((f, g), q) = branch_kids_lem 0 bs p (kid e p else_branch ∷ []) st in
      Decides-↔ (λ _. FitsAgent (select bs e) total turn_aware × StackFits st) _
        (next (kids (select bs e) p ++ st) (omega arith))
        (λ _ k. let (a, (b, c)) = f k in ((a, b), c)) (λ _ ((a, b), c). g (a, (b, c)))
  node_step (fallback ns) p fuel st l next =
      let ((f, g), q) = stage_kids_lem 0 ns p st in
      Decides-↔ (λ _. FitsAgent (fallback ns) total turn_aware × StackFits st) _
        (next (kids (fallback ns) p ++ st) (omega arith)) (λ _ k. f k) (λ _ k. g k)
  node_step (refine c m lazy) p fuel st l next =
      Decides-↔ (λ _. FitsAgent (refine c m lazy) total turn_aware × StackFits st) _
        (next (kids (refine c m lazy) p ++ st) (omega arith)) (λ _ (a, (b, c)). ((a, b), c))
        (λ _ ((a, b), c). (a, (b, c)))

  size_pos : (n : StrategyNode W) → 1 ≤ size n
  unfolding size
  size_pos (algorithm a w h b) = omega arith
  size_pos (anytime ws h b) = omega arith
  size_pos (select bs e) = omega arith
  size_pos (fallback ns) = omega arith
  size_pos (refine c l lazy) = omega arith

  leaves_from-Decides : (fuel : ℕ) (st : List (Leaf W)) → stack_size st ≤ fuel → LeftFits fuel st
  unfolding leaves_from check_leaves StackFits stack_size LeftFits
  leaves_from-Decides fuel [] h = passes
  leaves_from-Decides zero (it ∷ st) h = let k = size_pos it.node in absurd (omega arith)
  leaves_from-Decides (suc fuel) (it ∷ st) h =
      node_step it.node it.path fuel st h (λ st' k. leaves_from-Decides fuel st' k)

  -- A validated strategy passes the check for an agent exactly where no leaf, and no anytime node, has a
  -- budget above the agent's total, and none plans by hpa where the agent's profile takes account of turns.
  pub check_strategy_for_agent-FitsAgent :
      (root : StrategyNode W)
      → (check_strategy_for_agent total turn_aware root ≡ ok tt) ↔ FitsAgent root total turn_aware
  unfolding check_strategy_for_agent leaves StackFits stack_size LeftFits
  check_strategy_for_agent-FitsAgent root =
      let d =
        leaves_from-Decides (size root) (record { node = root; path = [] } ∷ []) (omega arith) in
      (
        λ h.
            let (f, _) =
              subst (Accepts (λ _. FitsAgent root total turn_aware × Unit {0})) h d.sound in
            f,
        λ f. d.complete tt (f, tt),
      )
