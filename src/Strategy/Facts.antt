-- ===== src/Strategy/Facts.antt =====
-- The walk with a stack collects what the whole tree contains.
use mathlib.Core.Bool.{or_comm}
use agentsimjs.Prelude.{
  ℕ, zero, suc, ◌+◌, ◌≤◌, ◌≡◌, refl, sym, ap, ◌∙◌, Bool, true, false, ◌||◌, List, [], ◌∷◌, arith,
}
use agentsimjs.Strategy.Tree.{
  StrategyNode, algorithm, anytime, select, fallback, refine, Stages, nil, cons, Branches, end,
  branch, StrategyFacts, push_stages, push_branches, push_children, own_facts, both, facts_loop,
  size, size_stages, size_branches, strategy_facts,
}

abbrev no_facts : StrategyFacts
no_facts = record { hpa = false; lazy_refine = false }

-- The same by recursion on the tree.
unfoldable mutual
  pub tree_facts : {W : Type 0} → StrategyNode W → StrategyFacts
  tree_facts (algorithm a w h b) = own_facts (algorithm a w h b)
  tree_facts (anytime ws h b) = own_facts (anytime ws h b)
  tree_facts (select bs e) = both (branches_facts bs) (tree_facts e)
  tree_facts (fallback ns) = stages_facts ns
  tree_facts (refine c l lazy) =
      both (own_facts (refine c l lazy)) (both (tree_facts c) (tree_facts l))

  pub stages_facts : {W : Type 0} → Stages W → StrategyFacts
  stages_facts nil = record { hpa = false; lazy_refine = false }
  stages_facts (cons n ns) = both (tree_facts n) (stages_facts ns)

  pub branches_facts : {W : Type 0} → Branches W → StrategyFacts
  branches_facts end = record { hpa = false; lazy_refine = false }
  branches_facts (branch c n bs) = both (tree_facts n) (branches_facts bs)

or_swap : (a b c : Bool) → (a || (b || c)) ≡ ((b || a) || c)
or_swap true true c = refl
or_swap true false c = refl
or_swap false true c = refl
or_swap false false c = refl

both_swap : (f g h : StrategyFacts) → both f (both g h) ≡ both (both g f) h
unfolding both
both_swap f g h = cc (or_swap f.hpa g.hpa h.hpa, or_swap f.lazy_refine g.lazy_refine h.lazy_refine)

both_comm : (f g : StrategyFacts) → both f g ≡ both g f
unfolding both
both_comm f g = cc (or_comm f.hpa g.hpa, or_comm f.lazy_refine g.lazy_refine)

both_assoc : (f g h : StrategyFacts) → both (both f g) h ≡ both f (both g h)
both_assoc f g h = ap (λ x. both x h) (both_comm f g) ∙ sym (both_swap f g h)

pub no-both : (f : StrategyFacts) → both no_facts f ≡ f
unfolding both
no-both f = refl

pub both-no : (f : StrategyFacts) → both f no_facts ≡ f
both-no f = both_comm f no_facts ∙ no-both f

module _ {W : Type 0} where
  stack_facts : List (StrategyNode W) → StrategyFacts
  stack_facts [] = record { hpa = false; lazy_refine = false }
  stack_facts (n ∷ st) = both (tree_facts n) (stack_facts st)

  stack_size : List (StrategyNode W) → ℕ
  stack_size [] = 0
  stack_size (n ∷ st) = size n + stack_size st

  push_stages_lem :
      (ns : Stages W) (st : List (StrategyNode W))
      → (stack_facts (push_stages ns st) ≡ both (stages_facts ns) (stack_facts st))
        × (stack_size (push_stages ns st) ≡ size_stages ns + stack_size st)
  unfolding push_stages stack_facts stack_size size tree_facts
  push_stages_lem nil st = (sym (no-both (stack_facts st)), omega arith)
  push_stages_lem (cons n ns) st =
      let (h, k) = push_stages_lem ns (n ∷ st) in
      (h ∙ both_swap (stages_facts ns) (tree_facts n) (stack_facts st), omega arith)

  push_branches_lem :
      (bs : Branches W) (st : List (StrategyNode W))
      → (stack_facts (push_branches bs st) ≡ both (branches_facts bs) (stack_facts st))
        × (stack_size (push_branches bs st) ≡ size_branches bs + stack_size st)
  unfolding push_branches stack_facts stack_size size tree_facts
  push_branches_lem end st = (sym (no-both (stack_facts st)), omega arith)
  push_branches_lem (branch c n bs) st =
      let (h, k) = push_branches_lem bs (n ∷ st) in
      (h ∙ both_swap (branches_facts bs) (tree_facts n) (stack_facts st), omega arith)

  -- A node is what the body notes of it and the children that it pushes.
  push_children_lem :
      (n : StrategyNode W) (st : List (StrategyNode W))
      → (both (own_facts n) (stack_facts (push_children n st))
          ≡ both (tree_facts n) (stack_facts st))
        × (suc (stack_size (push_children n st)) ≡ size n + stack_size st)
  unfolding push_children stack_facts stack_size size tree_facts own_facts
  push_children_lem (algorithm a w h b) st = (refl, omega arith)
  push_children_lem (anytime ws h b) st = (refl, omega arith)
  push_children_lem (select bs e) st =
      let (h, k) = push_branches_lem bs st in
      (
        no-both (both (tree_facts e) (stack_facts (push_branches bs st)))
            ∙ ap (both (tree_facts e)) h
            ∙ both_swap (tree_facts e) (branches_facts bs) (stack_facts st),
        omega arith,
      )
  push_children_lem (fallback ns) st =
      let (h, k) = push_stages_lem ns st in
      (no-both (stack_facts (push_stages ns st)) ∙ h, omega arith)
  push_children_lem (refine c l lazy) st = (
    ap (both (own_facts (refine c l lazy)))
          (both_swap (tree_facts l) (tree_facts c) (stack_facts st))
        ∙ sym (
            both_assoc (own_facts (refine c l lazy)) (both (tree_facts c) (tree_facts l))
              (stack_facts st)),
    omega arith,
  )

  facts_loop-both :
      (fuel : ℕ) (st : List (StrategyNode W)) (f : StrategyFacts)
      → stack_size st ≤ fuel
      → facts_loop fuel st f ≡ both f (stack_facts st)
  unfolding facts_loop stack_facts stack_size
  facts_loop-both fuel [] f h = sym (both-no f)
  facts_loop-both zero (n ∷ st) f h = let (_, k) = push_children_lem n st in absurd (omega arith)
  facts_loop-both (suc fuel) (n ∷ st) f h =
      let (e, k) = push_children_lem n st in
      facts_loop-both fuel (push_children n st) (both f (own_facts n)) (omega arith)
      ∙ both_assoc f (own_facts n) (stack_facts (push_children n st))
      ∙ ap (both f) e

pub strategy_facts-tree_facts :
    {W : Type 0} (root : StrategyNode W) → strategy_facts root ≡ tree_facts root
unfolding strategy_facts stack_facts stack_size
strategy_facts-tree_facts root =
    facts_loop-both (size root) (root ∷ []) no_facts (omega arith)
    ∙ no-both (both (tree_facts root) no_facts)
    ∙ both-no (tree_facts root)
