-- ===== src/Strategy/Runner/Run.antt =====
-- StrategyRunner.run of runner.ts: one node, each search that it needs and its result. The cache of
-- compiled conditions is left out: it holds what compiling again gives.
use agentsimjs.Prelude.{
  ℕ, suc, ◌+◌, ◌-◌, Bool, true, ◌&&◌, List, [], ◌∷◌, ◌++◌, map, Option, none, some, ok, err, ltb,
  ◌==◌, length, if◌then◌else◌,
}
use agentsimjs.Expr.Syntax.{Text, Numbers, Context, boolean}
use agentsimjs.Expr.Compile.{compile_expr}
use agentsimjs.Expr.Evaluate.{evaluate_condition}
use agentsimjs.Strategy.{max_legs, Segment, branches, stages, local_leg, else_branch, coarse}
use agentsimjs.Strategy.Tree.{
  StrategyNode, algorithm, anytime, select, fallback, refine, Stages, nil, cons, Branches, end,
  branch,
}
use agentsimjs.Strategy.Runner.{
  StageRole, coarse_role, leg_role, not_found, NodeResult, LegReady, Log, Gen, finished,
  threw_error, then_run,
}
use agentsimjs.Strategy.Runner.Geometry.{heading_of, distinct, thin, points_of, push_cells}
unfoldable pub use agentsimjs.Strategy.Runner.Steps.{
  passes, is_found, is_coarse, is_plan, coarse_search, or_else, insert_all, failed, value_of,
  found_path, answer, algorithm_result, run_algorithm, anytime_result, better, left_of, is_spent,
}

module _ (N : Numbers) (infinity : N.F) (ctx : Context) (waypoints_of : List ℕ → List ℕ)
    (size_x : ℕ) (values : Text → Option N.F) where
  open N use {F, nan, zero_f, add_f, lt_f}

  -- the legs of a refine, from number `k` on; `total` points in all
  unfoldable pub run_legs :
      (List Segment → ℕ → ℕ → Option ℕ → Log F → Gen F)
      → Bool
      → ℕ
      → ℕ
      → List Segment
      → List ℕ
      → List ℕ
      → F
      → Option ℕ
      → StageRole
      → Log F
      → Gen F
  unfolding answer is_found push_cells heading_of then_run
  run_legs local publish total k path [] cells cost dir role log =
      finished (answer N infinity ctx waypoints_of size_x values role cells cost) log
  run_legs local publish total k path (a ∷ []) cells cost dir role log =
      finished (answer N infinity ctx waypoints_of size_x values role cells cost) log
  run_legs local publish total k path (a ∷ b ∷ points) cells cost dir role log =
      then_run (local (path ++ local_leg k ∷ []) a b dir log) (λ leg log'.
        let ready : LegReady F = record {
          index = k;
          count = total - 1;
          cells = leg.cells;
          cost = leg.cost;
          last = k + 2 == total;
        } in
        let log'' = if publish then record log' { legs = log'.legs ++ ready ∷ [] } else log' in
        let rest =
          run_legs local publish total (suc k) path (b ∷ points) (push_cells cells leg.cells)
            (add_f cost leg.cost)
            (elim (heading_of leg.cells size_x) [ none ↦ dir | some d ↦ some d ]) role log'' in
        if is_found leg.status
        then rest
        else finished (failed N infinity ctx waypoints_of size_x values leg.status) log')

  unfoldable pub note_thinned : List ℕ → ℕ → ℕ → Log F → Log F
  unfolding thin
  note_thinned ps from to log =
      let legs = length ps - 1 in
      if ltb max_legs legs
      then record log {
        thinned = some (record { legs = legs; kept = length (thin legs ps from to) - 1 });
      }
      else log

  unfoldable pub after_coarse :
      (List Segment → ℕ → ℕ → Option ℕ → Log F → Gen F)
      → Bool
      → List Segment
      → ℕ
      → ℕ
      → Option ℕ
      → StageRole
      → NodeResult F
      → Log F
      → Gen F
  unfolding run_legs is_plan is_found distinct points_of note_thinned
  after_coarse local lazy path from to dir role found_coarse log =
      let publish = lazy && is_plan role in
      let ps = distinct (or_else found_coarse.waypoints (from ∷ to ∷ [])) in
      let ready : LegReady F = record {
        index = 0;
        count = 1;
        cells = from ∷ [];
        cost = zero_f;
        last = true;
      } in
      if is_found found_coarse.status
      then if ltb (length ps) 2
        then finished (found_path N infinity ctx waypoints_of size_x values (from ∷ []) zero_f)
            (if publish then record log { legs = log.legs ++ ready ∷ [] } else log)
        else run_legs local publish (length (points_of ps from to)) 0 path (points_of ps from to) []
            zero_f dir role (note_thinned ps from to log)
      else finished found_coarse log

  abbrev pub note_select : List Segment → Option ℕ → List Text → Log F → Log F
  note_select path taken names log = record log {
    selects =
        log.selects
        ++ record {
          path = path;
          branch = taken;
          values = map (λ n. (n, value_of N infinity ctx waypoints_of size_x values n)) names;
        }
          ∷ [];
  }

  unfoldable mutual
    unfolding run_algorithm passes then_run after_coarse is_found insert_all

    pub run : StrategyNode F → List Segment → ℕ → ℕ → Option ℕ → StageRole → Log F → Gen F
    run (algorithm a w h b) path from to dir role log =
        run_algorithm N infinity ctx waypoints_of size_x values a w h b path from to dir role log
    run (anytime ws h b) path from to dir role log =
        passes N infinity ctx waypoints_of size_x values 0 ws h b none 0 path from to dir role log
    run (select bs e) path from to dir role log =
        run_branches 0 bs [] path from to dir role log (λ names log'.
          run e (path ++ else_branch ∷ []) from to dir role (note_select path none names log'))
    run (fallback ns) path from to dir role log =
        run_stages 0 ns (failed N infinity ctx waypoints_of size_x values not_found) path from to
          dir role log
    run (refine c l lazy) path from to dir role log =
        then_run (run c (path ++ coarse ∷ []) from to dir coarse_role log)
          (after_coarse (λ p a b d log'. run l p a b d leg_role log') lazy path from to dir role)

    pub run_branches :
        ℕ
        → Branches F
        → List Text
        → List Segment
        → ℕ
        → ℕ
        → Option ℕ
        → StageRole
        → Log F
        → (List Text → Log F → Gen F)
        → Gen F
    run_branches k end names path from to dir role log otherwise = otherwise names log
    run_branches k (branch when n bs) names path from to dir role log otherwise =
        let taken = run n (path ++ branches k ∷ []) from to dir role in
        elim (compile_expr N when ctx boolean) [
          | err e ↦ threw_error
          | ok c ↦
              let seen = insert_all c.variables names in
              let rest = run_branches (suc k) bs seen path from to dir role log otherwise in
              if evaluate_condition N c
                (map (value_of N infinity ctx waypoints_of size_x values) c.variables)
              then taken (note_select path (some k) seen log)
              else rest
        ]

    pub run_stages :
        ℕ → Stages F → NodeResult F → List Segment → ℕ → ℕ → Option ℕ → StageRole → Log F → Gen F
    run_stages k nil last path from to dir role log = finished last log
    run_stages k (cons n ns) last path from to dir role log =
        then_run (run n (path ++ stages k ∷ []) from to dir role log) (λ r log'.
          let rest = run_stages (suc k) ns r path from to dir role log' in
          if is_found r.status then finished r log' else rest)
