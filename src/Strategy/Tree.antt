-- ===== src/Strategy/Tree.antt =====
-- The nodes of schema.ts, and strategyFacts of tree.ts, which walks them with an explicit stack.
use agentsimjs.Prelude.{ℕ, zero, suc, ◌+◌, Bool, true, false, ◌||◌, List, [], ◌∷◌, Option}
use agentsimjs.Expr.Syntax.{Text}
use agentsimjs.Strategy.{StrategyAlgorithm, hpa, StrategyHeuristic}

-- A node's stage budget stands last; `refine` is lazy where its mark is true.
mutual
  pub data StrategyNode (W : Type 0) : Type 0 where
    algorithm : StrategyAlgorithm → Option W → Option StrategyHeuristic → Option ℕ → StrategyNode W
    anytime : List W → Option StrategyHeuristic → Option ℕ → StrategyNode W
    select : Branches W → StrategyNode W → StrategyNode W
    fallback : Stages W → StrategyNode W
    refine : StrategyNode W → StrategyNode W → Bool → StrategyNode W

  pub data Stages (W : Type 0) : Type 0 where
    nil : Stages W
    cons : StrategyNode W → Stages W → Stages W

  -- A branch has its condition and its node.
  pub data Branches (W : Type 0) : Type 0 where
    end : Branches W
    branch : Text → StrategyNode W → Branches W → Branches W

pub record StrategyFacts : Type 0 where
  pub hpa : Bool
  pub lazy_refine : Bool

unfoldable pub is_hpa : StrategyAlgorithm → Bool
is_hpa hpa = true
is_hpa _ = false

unfoldable pub both : StrategyFacts → StrategyFacts → StrategyFacts
both f g = record { hpa = f.hpa || g.hpa; lazy_refine = f.lazy_refine || g.lazy_refine }

module _ {W : Type 0} where
  -- Pushing every stage of a fallback, in order.
  unfoldable pub push_stages : Stages W → List (StrategyNode W) → List (StrategyNode W)
  push_stages nil st = st
  push_stages (cons n ns) st = push_stages ns (n ∷ st)

  unfoldable pub push_branches : Branches W → List (StrategyNode W) → List (StrategyNode W)
  push_branches end st = st
  push_branches (branch c n bs) st = push_branches bs (n ∷ st)

  -- What the body of the loop pushes for a node, and notes of it.
  unfoldable pub push_children : StrategyNode W → List (StrategyNode W) → List (StrategyNode W)
  unfolding push_stages push_branches
  push_children (algorithm a w h b) st = st
  push_children (anytime ws h b) st = st
  push_children (select bs e) st = e ∷ push_branches bs st
  push_children (fallback ns) st = push_stages ns st
  push_children (refine c l lazy) st = l ∷ c ∷ st

  unfoldable pub own_facts : StrategyNode W → StrategyFacts
  unfolding is_hpa
  own_facts (algorithm a w h b) = record { hpa = is_hpa a; lazy_refine = false }
  own_facts (refine c l lazy) = record { hpa = false; lazy_refine = lazy }
  own_facts n = record { hpa = false; lazy_refine = false }

  -- The loop, on fuel: a round pops one node, so the number of nodes suffices (`Facts`).
  unfoldable pub facts_loop : ℕ → List (StrategyNode W) → StrategyFacts → StrategyFacts
  unfolding push_children own_facts both
  facts_loop fuel [] f = f
  facts_loop zero (n ∷ st) f = f
  facts_loop (suc fuel) (n ∷ st) f = facts_loop fuel (push_children n st) (both f (own_facts n))

unfoldable mutual
  pub size : {W : Type 0} → StrategyNode W → ℕ
  size (algorithm a w h b) = 1
  size (anytime ws h b) = 1
  size (select bs e) = 1 + (size_branches bs + size e)
  size (fallback ns) = 1 + size_stages ns
  size (refine c l lazy) = 1 + (size c + size l)

  pub size_stages : {W : Type 0} → Stages W → ℕ
  size_stages nil = 0
  size_stages (cons n ns) = size n + size_stages ns

  pub size_branches : {W : Type 0} → Branches W → ℕ
  size_branches end = 0
  size_branches (branch c n bs) = size n + size_branches bs

unfoldable pub strategy_facts : {W : Type 0} → StrategyNode W → StrategyFacts
unfolding facts_loop size
strategy_facts root =
    facts_loop (size root) (root ∷ []) (record { hpa = false; lazy_refine = false })
