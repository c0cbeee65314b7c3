-- ===== src/Strategy/Contains.antt =====
-- What strategyFacts finds, by the list of all nodes of the tree.
use agentsimjs.Prelude.{
  ◌≡◌, refl, sym, ap, ◌∙◌, Bool, true, false, ◌||◌, List, [], ◌∷◌, ◌++◌, arith,
}
use agentsimjs.Strategy.{StrategyAlgorithm}
use agentsimjs.Strategy.Tree.{
  StrategyNode, algorithm, anytime, select, fallback, refine, Stages, nil, cons, Branches, end,
  branch, StrategyFacts, own_facts, both, strategy_facts,
}
use agentsimjs.Strategy.Facts.{
  tree_facts, stages_facts, branches_facts, no-both, strategy_facts-tree_facts,
}

-- All nodes of a tree, in the order of the document.
unfoldable mutual
  pub nodes : {W : Type 0} → StrategyNode W → List (StrategyNode W)
  nodes (algorithm a w h b) = algorithm a w h b ∷ []
  nodes (anytime ws h b) = anytime ws h b ∷ []
  nodes (select bs e) = select bs e ∷ branches_nodes bs ++ nodes e
  nodes (fallback ns) = fallback ns ∷ stages_nodes ns
  nodes (refine c l lazy) = refine c l lazy ∷ nodes c ++ nodes l

  pub stages_nodes : {W : Type 0} → Stages W → List (StrategyNode W)
  stages_nodes nil = []
  stages_nodes (cons n ns) = nodes n ++ stages_nodes ns

  pub branches_nodes : {W : Type 0} → Branches W → List (StrategyNode W)
  branches_nodes end = []
  branches_nodes (branch c n bs) = nodes n ++ branches_nodes bs

-- A leaf that plans with `hpa`.
abbrev pub is_hpa_leaf : {W : Type 0} → StrategyNode W → Bool
is_hpa_leaf (algorithm StrategyAlgorithm.hpa w h b) = true
is_hpa_leaf _ = false

-- A refine whose mode is lazy.
abbrev pub is_lazy_refine : {W : Type 0} → StrategyNode W → Bool
is_lazy_refine (refine c l true) = true
is_lazy_refine _ = false

abbrev pub some_node : {W : Type 0} → (StrategyNode W → Bool) → List (StrategyNode W) → Bool
some_node p [] = false
some_node p (n ∷ ns) = p n || some_node p ns

module _ {W : Type 0} where
  found_among : List (StrategyNode W) → StrategyFacts
  found_among ns = record {
    hpa = some_node is_hpa_leaf ns;
    lazy_refine = some_node is_lazy_refine ns;
  }

  own_facts_lem :
      (n : StrategyNode W)
      → own_facts n ≡ record { hpa = is_hpa_leaf n; lazy_refine = is_lazy_refine n }
  unfolding own_facts
  own_facts_lem (algorithm a w h b) = by_algorithm a
    where
      by_algorithm :
          (a : StrategyAlgorithm)
          → own_facts (algorithm a w h b) ≡ record {
            hpa = is_hpa_leaf (algorithm a w h b);
            lazy_refine = is_lazy_refine (algorithm a w h b);
          }
      by_algorithm StrategyAlgorithm.hpa = refl
      by_algorithm _ = refl
  own_facts_lem (anytime ws h b) = refl
  own_facts_lem (select bs e) = refl
  own_facts_lem (fallback ns) = refl
  own_facts_lem (refine c l true) = refl
  own_facts_lem (refine c l false) = refl

  some_node-append :
      (p : StrategyNode W → Bool) (ns ms : List (StrategyNode W))
      → some_node p (ns ++ ms) ≡ (some_node p ns || some_node p ms)
  some_node-append p [] ms = refl
  some_node-append p (n ∷ ns) ms = ground (arith, some_node-append p ns ms)

  found_among-append :
      (ns ms : List (StrategyNode W))
      → found_among (ns ++ ms) ≡ both (found_among ns) (found_among ms)
  unfolding found_among both
  found_among-append ns ms =
      cc (some_node-append is_hpa_leaf ns ms, some_node-append is_lazy_refine ns ms)

  found_among-cons :
      (n : StrategyNode W) (ns : List (StrategyNode W))
      → found_among (n ∷ ns) ≡ both (own_facts n) (found_among ns)
  unfolding found_among both
  found_among-cons n ns = rw (own_facts_lem n) refl

  both_found :
      {f g : StrategyFacts} (ns ms : List (StrategyNode W))
      → f ≡ found_among ns
      → g ≡ found_among ms
      → both f g ≡ found_among (ns ++ ms)
  both_found ns ms p q = cc (p, q, found_among-append ns ms)

  leaf_found : (n : StrategyNode W) → own_facts n ≡ found_among (n ∷ [])
  unfolding found_among
  leaf_found n = ground (arith, own_facts_lem n)

  -- A node that is not noted itself.
  plain_found :
      {f : StrategyFacts} (n : StrategyNode W) (ns : List (StrategyNode W))
      → own_facts n ≡ record { hpa = false; lazy_refine = false }
      → f ≡ found_among ns
      → f ≡ found_among (n ∷ ns)
  plain_found {f} n ns plain h =
      h
      ∙ sym (no-both (found_among ns))
      ∙ ap (λ g. both g (found_among ns)) (sym plain)
      ∙ sym (found_among-cons n ns)

none_among : (W : Type 0) → record { hpa = false; lazy_refine = false } ≡ found_among {W = W} []
unfolding found_among
none_among W = refl

mutual
  unfolding tree_facts nodes own_facts

  tree_facts-nodes : {W : Type 0} (n : StrategyNode W) → tree_facts n ≡ found_among (nodes n)
  tree_facts-nodes (algorithm a w h b) = leaf_found (algorithm a w h b)
  tree_facts-nodes (anytime ws h b) = leaf_found (anytime ws h b)
  tree_facts-nodes (select bs e) =
      plain_found (select bs e) (branches_nodes bs ++ nodes e) refl
        (both_found (branches_nodes bs) (nodes e) (branches_facts-nodes bs) (tree_facts-nodes e))
  tree_facts-nodes (fallback ns) =
      plain_found (fallback ns) (stages_nodes ns) refl (stages_facts-nodes ns)
  tree_facts-nodes (refine c l lazy) =
      ap (both (own_facts (refine c l lazy)))
        (both_found (nodes c) (nodes l) (tree_facts-nodes c) (tree_facts-nodes l))
      ∙ sym (found_among-cons (refine c l lazy) (nodes c ++ nodes l))

  stages_facts-nodes :
      {W : Type 0} (ns : Stages W) → stages_facts ns ≡ found_among (stages_nodes ns)
  stages_facts-nodes {W} nil = none_among W
  stages_facts-nodes (cons n ns) =
      both_found (nodes n) (stages_nodes ns) (tree_facts-nodes n) (stages_facts-nodes ns)

  branches_facts-nodes :
      {W : Type 0} (bs : Branches W) → branches_facts bs ≡ found_among (branches_nodes bs)
  branches_facts-nodes {W} end = none_among W
  branches_facts-nodes (branch c n bs) =
      both_found (nodes n) (branches_nodes bs) (tree_facts-nodes n) (branches_facts-nodes bs)

-- The walk with a stack finds an `hpa` leaf exactly where some node of the tree is one, and a lazy
-- refine exactly where some node of the tree is one.
pub strategy_facts-some_node :
    {W : Type 0} (root : StrategyNode W)
    → ((strategy_facts root).hpa ≡ some_node is_hpa_leaf (nodes root))
      × ((strategy_facts root).lazy_refine ≡ some_node is_lazy_refine (nodes root))
unfolding found_among
strategy_facts-some_node root =
    let e = strategy_facts-tree_facts root ∙ tree_facts-nodes root in
    (ap (λ (f : StrategyFacts). f.hpa) e, ap (λ (f : StrategyFacts). f.lazy_refine) e)
