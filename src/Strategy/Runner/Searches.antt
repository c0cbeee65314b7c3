-- ===== src/Strategy/Runner/Searches.antt =====
-- A bound on the searches of a whole strategy.
use agentsimjs.Prelude.{
  ℕ, suc, ◌+◌, ◌*◌, max, Result-cases, List, [], ◌∷◌, ◌++◌, map, Option, none, length, if_cases,
  arith, inl, inr,
}
use agentsimjs.Expr.Syntax.{Text, Numbers, Context, boolean}
use agentsimjs.Expr.Compile.{compile_expr}
use agentsimjs.Expr.Evaluate.{evaluate_condition}
use agentsimjs.Strategy.{max_legs, Segment, branches, stages, else_branch, coarse}
use agentsimjs.Strategy.Tree.{
  StrategyNode, algorithm, anytime, select, fallback, refine, Stages, nil, cons, Branches, end,
  branch,
}
use agentsimjs.Strategy.Runner.{StageRole, coarse_role, leg_role, not_found, NodeResult, Log, Gen}
use agentsimjs.Strategy.Runner.Run.{
  is_found, failed, run, run_branches, run_stages, value_of, insert_all,
}
use agentsimjs.Strategy.Runner.Bounds.{
  AtMost, AtMost-mono, AtMost-then, passes-AtMost, after_coarse-AtMost,
}

unfoldable mutual
  -- The searches of a node: of a select, those of one branch.
  pub search_limit : {W : Type 0} → StrategyNode W → ℕ
  search_limit (algorithm a w h b) = 1
  search_limit (anytime ws h b) = length ws
  search_limit (select bs e) = max (search_limit_branches bs) (search_limit e)
  search_limit (fallback ns) = search_limit_stages ns
  search_limit (refine c l lazy) = search_limit c + max_legs * search_limit l

  search_limit_stages : {W : Type 0} → Stages W → ℕ
  search_limit_stages nil = 0
  search_limit_stages (cons n ns) = search_limit n + search_limit_stages ns

  search_limit_branches : {W : Type 0} → Branches W → ℕ
  search_limit_branches end = 0
  search_limit_branches (branch c n bs) = max (search_limit n) (search_limit_branches bs)

module _ (N : Numbers) (infinity : N.F) (ctx : Context) (waypoints_of : List ℕ → List ℕ)
    (size_x : ℕ) (values : Text → Option N.F) where
  open N use {F, nan, zero_f, add_f, lt_f}

  mutual
    unfolding run run_branches run_stages search_limit search_limit_stages search_limit_branches
        AtMost

    run-AtMost :
        (t : StrategyNode F) (path : List Segment) (from to : ℕ) (dir : Option ℕ) (role : StageRole)
        (log : Log F)
        → AtMost
            (search_limit t)
            (run N infinity ctx waypoints_of size_x values t path from to dir role log)
    run-AtMost (algorithm s w h m) path from to dir role log = λ fb log'. tt
    run-AtMost (anytime ws h m) path from to dir role log =
        passes-AtMost N infinity ctx waypoints_of size_x values 0 ws h m none 0 path from to dir
          role log
    run-AtMost (select bs e) path from to dir role log =
        run_branches-AtMost 0 bs [] path from to dir role log _ (search_limit e)
          (λ names log'. run-AtMost e (path ++ else_branch ∷ []) from to dir role _)
    run-AtMost (fallback ns) path from to dir role log =
        run_stages-AtMost 0 ns (failed N infinity ctx waypoints_of size_x values not_found) path
          from to dir role log
    run-AtMost (refine c l z) path from to dir role log =
        AtMost-then (search_limit c) (max_legs * search_limit l)
          (run N infinity ctx waypoints_of size_x values c (path ++ coarse ∷ []) from to dir
            coarse_role log)
          _ (run-AtMost c (path ++ coarse ∷ []) from to dir coarse_role log)
          (λ r log'.
            after_coarse-AtMost N infinity ctx waypoints_of size_x values _ z path from to dir role
              r log' (search_limit l) (λ p a b dir' log''. run-AtMost l p a b dir' leg_role log''))

    run_branches-AtMost :
        (k : ℕ) (bs : Branches F) (names : List Text) (path : List Segment) (from to : ℕ)
        (dir : Option ℕ) (role : StageRole) (log : Log F) (otherwise : List Text → Log F → Gen F)
        (n : ℕ)
        → ((names : List Text) (log : Log F) → AtMost n (otherwise names log))
        → AtMost (max (search_limit_branches bs) n) (
            run_branches N infinity ctx waypoints_of size_x values k bs names path from to dir role
              log otherwise)
    run_branches-AtMost k end names path from to dir role log otherwise n h =
        AtMost-mono n (max 0 n) _ (omega arith) (h names log)
    run_branches-AtMost k (branch when t bs) names path from to dir role log otherwise n h =
        elim (Result-cases (compile_expr N when ctx boolean)) [
          | inl (e, q) ↦ rw (q, AtMost) tt
          | inr (c, q) ↦
              rw (q, AtMost)
                (if_cases (AtMost (max (max (search_limit t) (search_limit_branches bs)) n))
                  (evaluate_condition N c
                    (map (value_of N infinity ctx waypoints_of size_x values) c.variables))
                  (λ _.
                    AtMost-mono (search_limit t)
                      (max (max (search_limit t) (search_limit_branches bs)) n) _ (omega arith)
                      (run-AtMost t (path ++ branches k ∷ []) from to dir role _))
                  (λ _.
                    AtMost-mono (max (search_limit_branches bs) n)
                      (max (max (search_limit t) (search_limit_branches bs)) n) _ (omega arith)
                      (run_branches-AtMost (suc k) bs (insert_all c.variables names) path from to
                        dir role log otherwise n h)))
        ]

    run_stages-AtMost :
        (k : ℕ) (ns : Stages F) (last : NodeResult F) (path : List Segment) (from to : ℕ)
        (dir : Option ℕ) (role : StageRole) (log : Log F)
        → AtMost (search_limit_stages ns) (
            run_stages N infinity ctx waypoints_of size_x values k ns last path from to dir role
              log)
    run_stages-AtMost k nil last path from to dir role log = tt
    run_stages-AtMost k (cons n ns) last path from to dir role log =
        AtMost-then (search_limit n) (search_limit_stages ns)
          (run N infinity ctx waypoints_of size_x values n (path ++ stages k ∷ []) from to dir role
            log)
          _ (run-AtMost n (path ++ stages k ∷ []) from to dir role log)
          (λ r log'.
            if_cases (AtMost (search_limit_stages ns)) (is_found r.status) (λ _. tt)
              (λ _. run_stages-AtMost (suc k) ns r path from to dir role log'))

  -- Whatever the searches answer, a strategy asks for a number of them that its tree bounds: one for a leaf,
  -- one for each weight, those of one branch of a select, those of every stage of a fallback, and at most
  -- the limit's legs of a refine besides its coarse part.
  pub run-search_limit :
      (root : StrategyNode F) (path : List Segment) (from to : ℕ) (dir : Option ℕ)
      (role : StageRole) (log : Log F)
      → AtMost
          (search_limit root)
          (run N infinity ctx waypoints_of size_x values root path from to dir role log)
  run-search_limit root path from to dir role log = run-AtMost root path from to dir role log
