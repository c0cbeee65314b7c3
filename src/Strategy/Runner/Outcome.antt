-- ===== src/Strategy/Runner/Outcome.antt =====
-- What a strategy comes to that the validator accepted.
use agentsimjs.Prelude.{
  ℕ, suc, ◌+◌, ◌≡◌, refl, Bool, true, false, List, [], ◌∷◌, ◌++◌, map, Option, none, some, ok,
  if_cases,
}
use agentsimjs.Expr.Syntax.{Text, Numbers, Context}
use agentsimjs.Expr.Evaluate.{evaluate_condition}
use agentsimjs.Strategy.{Segment, branches, stages, else_branch, coarse}
use agentsimjs.Strategy.Tree.{
  StrategyNode, algorithm, anytime, select, fallback, refine, Stages, nil, cons, Branches, end,
  branch,
}
use agentsimjs.Strategy.Document.{document, document_stages, document_branches}
use agentsimjs.Strategy.Validate.{StrategyValidationOptions, validate_planning_strategy}
use agentsimjs.Strategy.Valid.{Valid, ValidStages, ValidBranches, ConditionsFit}
use agentsimjs.Strategy.Valid.Whole.{validate_planning_strategy-Valid}
use agentsimjs.Strategy.Runner.{
  StageRole, plan_role, coarse_role, leg_role, not_found, StageSpec, NodeResult, Log, Gen,
}
use agentsimjs.Strategy.Runner.Run.{
  is_found, is_coarse, failed, run, run_branches, run_stages, value_of, insert_all,
}
use agentsimjs.Strategy.Runner.Paths.{IsPath, Route}
use agentsimjs.Strategy.Runner.Delivers.{
  Truthful, Delivers, Delivers-then, Service, drive, drive-Delivers, Good, failed-Good,
  run_algorithm-Delivers, passes-Delivers,
}
use agentsimjs.Strategy.Runner.Legs.{after_coarse-Delivers}

module _ (N : Numbers) (infinity : N.F) (ctx : Context) (waypoints_of : List ℕ → List ℕ)
    (size_x : ℕ) (values : Text → Option N.F) (Adjacent : ℕ → ℕ → Type 0)
    (smooth : (a b : ℕ) (cells : List ℕ)
      → IsPath Adjacent a b cells
      → Route a b (waypoints_of cells))
    (in_range : N.F → Bool) (opts : StrategyValidationOptions) where
  open N use {F, nan, zero_f, add_f, lt_f}

  mutual
    unfolding run run_branches run_stages Valid ValidStages ValidBranches document document_stages
        document_branches Delivers

    run-Delivers :
        (t : StrategyNode F) (d : ℕ) (lazy : Bool)
        → Valid N in_range ctx opts (document t) d lazy
        → (path : List Segment) (from to : ℕ) (dir : Option ℕ) (role : StageRole) (log : Log F)
        → Delivers Adjacent
            (Good Adjacent role from to)
            (run N infinity ctx waypoints_of size_x values t path from to dir role log)
    run-Delivers (algorithm s w h m) d lazy v path from to dir role log =
        run_algorithm-Delivers N infinity ctx waypoints_of size_x values Adjacent smooth s w h m
          path from to dir role log
    run-Delivers (anytime ws h m) d lazy v path from to dir role log =
        passes-Delivers N infinity ctx waypoints_of size_x values Adjacent smooth 0 ws h m none 0
          path from to dir role log tt
    run-Delivers (select bs e) d lazy ((_, c), (v, u)) path from to dir role log =
        run_branches-Delivers 0 bs d lazy c v [] path from to dir role log _ (λ names log'.
          run-Delivers e (d + 1) lazy u (path ++ else_branch ∷ []) from to dir role _)
    run-Delivers (fallback ns) d lazy (_, v) path from to dir role log =
        run_stages-Delivers 0 ns d v (failed N infinity ctx waypoints_of size_x values not_found)
          path from to dir role log
          (failed-Good N infinity ctx waypoints_of size_x values Adjacent smooth role from to
            not_found refl)
    run-Delivers (refine c l z) d lazy (_, (v, u)) path from to dir role log =
        Delivers-then Adjacent (Good Adjacent coarse_role from to) (Good Adjacent role from to)
          (run N infinity ctx waypoints_of size_x values c (path ++ coarse ∷ []) from to dir
            coarse_role log)
          _ (run-Delivers c (d + 1) false v (path ++ coarse ∷ []) from to dir coarse_role log)
          (λ r log' g.
            after_coarse-Delivers N infinity ctx waypoints_of size_x values Adjacent smooth _ z path
              from to dir role r log'
              (λ p a b dir' log''. run-Delivers l (d + 1) false u p a b dir' leg_role log'') g)

    run_branches-Delivers :
        (k : ℕ) (bs : Branches F) (d : ℕ) (lazy : Bool)
        → ConditionsFit N in_range ctx opts (document_branches bs)
        → ValidBranches N in_range ctx opts (document_branches bs) d lazy
        → (names : List Text) (path : List Segment) (from to : ℕ) (dir : Option ℕ)
          (role : StageRole) (log : Log F) (otherwise : List Text → Log F → Gen F)
        → ((names : List Text) (log : Log F)
            → Delivers Adjacent (Good Adjacent role from to) (otherwise names log))
        → Delivers Adjacent (Good Adjacent role from to) (
            run_branches N infinity ctx waypoints_of size_x values k bs names path from to dir role
              log otherwise)
    run_branches-Delivers k end d lazy c v names path from to dir role log otherwise h = h names log
    run_branches-Delivers k (branch when n bs) d lazy ((e, (q, _)), c) (v, u) names path from to dir
          role log otherwise h =
        rw (q, Delivers)
          (if_cases (Delivers Adjacent (Good Adjacent role from to))
            (evaluate_condition N e
              (map (value_of N infinity ctx waypoints_of size_x values) e.variables))
            (λ _. run-Delivers n (d + 1) lazy v (path ++ branches k ∷ []) from to dir role _)
            (λ _.
              run_branches-Delivers (suc k) bs d lazy c u (insert_all e.variables names) path from
                to dir role log otherwise h))

    run_stages-Delivers :
        (k : ℕ) (ns : Stages F) (d : ℕ)
        → ValidStages N in_range ctx opts (document_stages ns) d
        → (last : NodeResult F) (path : List Segment) (from to : ℕ) (dir : Option ℕ)
          (role : StageRole) (log : Log F)
        → Good Adjacent role from to last
        → Delivers Adjacent (Good Adjacent role from to) (
            run_stages N infinity ctx waypoints_of size_x values k ns last path from to dir role
              log)
    run_stages-Delivers k nil d v last path from to dir role log g = g
    run_stages-Delivers k (cons n ns) d (v, u) last path from to dir role log g =
        Delivers-then Adjacent (Good Adjacent role from to) (Good Adjacent role from to)
          (run N infinity ctx waypoints_of size_x values n (path ++ stages k ∷ []) from to dir role
            log)
          _ (run-Delivers n (d + 1) false v (path ++ stages k ∷ []) from to dir role log)
          (λ r log' g.
            if_cases (Delivers Adjacent (Good Adjacent role from to)) (is_found r.status) (λ _. g)
              (λ _. run_stages-Delivers (suc k) ns d u r path from to dir role log' g))

  -- A strategy that the validator accepted runs to a result, without throwing, where the searches that it
  -- asks for are answered truthfully; and a result that it reports as found is a path from the start to
  -- the goal: one search's path, or the joined legs of a refine, thinned or not.
  pub validate_planning_strategy-run :
      (root : StrategyNode F)
      → validate_planning_strategy N in_range ctx opts (document root) ≡ ok tt
      → (service : Service F)
      → ((spec : StageSpec F) (log : Log F) → Truthful Adjacent spec (service spec log).0.result)
      → (from to : ℕ) (dir : Option ℕ) (log : Log F)
      → (r : NodeResult F) × ((drive service
              (run N infinity ctx waypoints_of size_x values root [] from to dir plan_role log)
            ≡ some r)
          × (is_found r.status ≡ true → IsPath Adjacent from to r.cells))
  unfolding is_coarse
  validate_planning_strategy-run root h service t from to dir log =
      let (to_valid, _) = validate_planning_strategy-Valid N in_range ctx opts (document root) in
      let (v, _) = to_valid h in
      let (r, (e, g)) =
        drive-Delivers Adjacent service (Good Adjacent plan_role from to)
          (run N infinity ctx waypoints_of size_x values root [] from to dir plan_role log) t
          (run-Delivers root 1 true v [] from to dir plan_role log) in
      (r, (e, λ f. let (p, _) = g f in p refl))
