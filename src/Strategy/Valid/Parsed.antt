-- ===== src/Strategy/Valid/Parsed.antt =====
-- A valid document is one of a strategy tree: what the cast at the end of the validator relies on.
use agentsimjs.Prelude.{
  ℕ, ◌+◌, ◌≤◌, ◌≡◌, refl, subst, ap, if_cases, ◌∙◌, Bool, true, false, some, ok, arith, inl, inr,
  Option-cases,
}
use agentsimjs.Expr.TextEquality.{text_eq_sound}
use agentsimjs.Expr.Syntax.{Text, text_eq, Numbers, Context}
use agentsimjs.Strategy.{max_nodes, StrategyAlgorithm, dijkstra, astar, weighted_astar, hpa}
use agentsimjs.Strategy.Tree.{
  StrategyNode, algorithm, anytime, select, fallback, refine, Stages, nil, cons, Branches, end,
  branch, size, size_stages, size_branches,
}
use agentsimjs.Strategy.Document.{
  RawNode, malformed, raw_algorithm, raw_anytime, raw_select, raw_select_no_else, raw_fallback,
  raw_refine, RawStages, raw_nil, raw_cons, RawBranches, raw_end, raw_branch, name_of, algorithm_of,
  document, document_stages, document_branches,
}
use agentsimjs.Strategy.Validate.{StrategyValidationOptions, validate_planning_strategy}
use agentsimjs.Strategy.Valid.{
  AlgorithmFits, Valid, ValidStages, ValidBranches, raw_size, raw_size_stages, raw_size_branches,
}
use agentsimjs.Strategy.Valid.Whole.{validate_planning_strategy-Valid}

algorithm_of-name_of : (t : Text) (a : StrategyAlgorithm) → algorithm_of t ≡ some a → t ≡ name_of a
unfolding algorithm_of
algorithm_of-name_of t a h = found h
  where
    is : (b : StrategyAlgorithm) → text_eq t (name_of b) ≡ true → some b ≡ some a → t ≡ name_of a
    is b e k = text_eq_sound t (name_of b) e ∙ ap name_of (cc k)

    found : algorithm_of t ≡ some a → t ≡ name_of a
    found =
        if_cases (λ o. o ≡ some a → t ≡ name_of a) (text_eq t (name_of dijkstra)) (is dijkstra)
          (λ _.
            if_cases (λ o. o ≡ some a → t ≡ name_of a) (text_eq t (name_of astar)) (is astar)
              (λ _.
                if_cases (λ o. o ≡ some a → t ≡ name_of a) (text_eq t (name_of weighted_astar))
                  (is weighted_astar)
                  (λ _.
                    if_cases (λ o. o ≡ some a → t ≡ name_of a) (text_eq t (name_of hpa)) (is hpa)
                      (λ _ k. cc k))))

module _ (N : Numbers) (in_range : N.F → Bool) (ctx : Context)
    (opts : StrategyValidationOptions) where
  open N use {F}

  -- A tree whose document is `n`.
  abbrev Parsed : RawNode F → Type 0
  Parsed n = (t : StrategyNode F) × ((n ≡ document t) × (size t ≡ raw_size n))

  mutual
    unfolding Valid ValidStages ValidBranches document document_stages document_branches size
        size_stages size_branches raw_size raw_size_stages raw_size_branches

    parsed : (n : RawNode F) (d : ℕ) (lazy : Bool) → Valid N in_range ctx opts n d lazy → Parsed n
    parsed (malformed f) d lazy h = absurd h
    parsed (raw_select_no_else bs) d lazy h = absurd h
    parsed (raw_algorithm name w h b) d lazy (_, v) = elim (Option-cases (algorithm_of name)) [
      | inl e ↦ absurd (subst (λ o. AlgorithmFits N in_range ctx opts o w h b) e v)
      | inr (a, e) ↦ (
        algorithm a w h b,
        (ap (λ x. raw_algorithm x w h b) (algorithm_of-name_of name a e), refl),
      )
    ]
    parsed (raw_anytime ws h b) d lazy v = (anytime ws h b, (refl, refl))
    parsed (raw_select bs e) d lazy (_, (v, u)) =
        let (tb, (p, q)) = parsed_branches bs d lazy v in
        let (te, (r, s)) = parsed e (d + 1) lazy u in (select tb te, (cc (p, r), cc (q, s)))
    parsed (raw_fallback ns) d lazy (_, v) =
        let (ts, (p, q)) = parsed_stages ns d v in (fallback ts, (cc p, cc q))
    parsed (raw_refine c l z) d lazy (_, (v, u)) =
        let (tc, (p, q)) = parsed c (d + 1) false v in
        let (tl, (r, s)) = parsed l (d + 1) false u in (refine tc tl z, (cc (p, r), cc (q, s)))

    parsed_stages :
        (ns : RawStages F) (d : ℕ)
        → ValidStages N in_range ctx opts ns d
        → (ts : Stages F) × ((ns ≡ document_stages ts) × (size_stages ts ≡ raw_size_stages ns))
    parsed_stages raw_nil d v = (nil, (refl, refl))
    parsed_stages (raw_cons n ns) d (v, u) =
        let (t, (p, q)) = parsed n (d + 1) false v in
        let (ts, (r, s)) = parsed_stages ns d u in (cons t ts, (cc (p, r), cc (q, s)))

    parsed_branches :
        (bs : RawBranches F) (d : ℕ) (lazy : Bool)
        → ValidBranches N in_range ctx opts bs d lazy
        → (ts : Branches F) × ((bs ≡ document_branches ts)
            × (size_branches ts ≡ raw_size_branches bs))
    parsed_branches raw_end d lazy v = (end, (refl, refl))
    parsed_branches (raw_branch c n bs) d lazy (v, u) =
        let (t, (p, q)) = parsed n (d + 1) lazy v in
        let (ts, (r, s)) = parsed_branches bs d lazy u in (branch c t ts, (cc (p, r), cc (q, s)))

  -- Where the validator accepts a document, the document is that of a strategy tree, and the tree has at
  -- most the limit's nodes.
  pub validate_planning_strategy-document :
      (root : RawNode F)
      → validate_planning_strategy N in_range ctx opts root ≡ ok tt
      → (t : StrategyNode F) × ((root ≡ document t) × (size t ≤ max_nodes))
  validate_planning_strategy-document root h =
      let (to_valid, _) = validate_planning_strategy-Valid N in_range ctx opts root in
      let (v, b) = to_valid h in let (t, (e, s)) = parsed root 1 true v in (t, (e, omega arith))
