-- ===== src/Strategy/Runner/Budget.antt =====
-- What the passes of an anytime node may spend.
use agentsimjs.Prelude.{
  ℕ, suc, ◌+◌, ◌-◌, ◌≤◌, ◌≡◌, refl, false, List, [], ◌∷◌, ◌++◌, Option, none, some, if_cases, arith,
}
use agentsimjs.Expr.Syntax.{Text, Numbers, Context}
use agentsimjs.Strategy.{
  StrategyAlgorithm, weighted_astar, StrategyHeuristic, octile, Segment, weights,
}
use agentsimjs.Strategy.Tree.{algorithm, anytime}
use agentsimjs.Strategy.Runner.{
  StageRole, pass_role, StageSpec, Log, Gen, finished, search, threw_error, record_search,
}
use agentsimjs.Strategy.Runner.Run.{
  is_found, coarse_search, or_else, answer, run_algorithm, better, passes, run, left_of, is_spent,
}
use agentsimjs.Strategy.Runner.Delivers.{Service}

-- The expansions of all searches of a run.
unfoldable pub expansions_of : {W : Type 0} → Service W → Gen W → ℕ
expansions_of service (finished r log) = 0
expansions_of service (search spec log answer) =
    let (fb, log') = service spec log in
    fb.result.expansions + expansions_of service (answer fb log')
expansions_of service threw_error = 0

-- A search that has a budget keeps to it.
abbrev pub Obeys : {W : Type 0} → Service W → Type 0
Obeys {W} service =
    (spec : StageSpec W) (log : Log W) (b : ℕ)
    → spec.stage_budget ≡ some b
    → (service spec log).0.result.expansions ≤ b

module _ (N : Numbers) (infinity : N.F) (ctx : Context) (waypoints_of : List ℕ → List ℕ)
    (size_x : ℕ) (values : Text → Option N.F) where
  open N use {F}

  passes-Obeys :
      (service : Service F)
      → Obeys service
      → (k : ℕ) (ws : List F) (h : Option StrategyHeuristic) (m : ℕ) (best : Option (List ℕ × F))
        (spent : ℕ) (path : List Segment) (a b : ℕ) (dir : Option ℕ) (role : StageRole)
        (log : Log F)
      → spent ≤ m
      → spent
          + expansions_of service (
              passes N infinity ctx waypoints_of size_x values k ws h
                (some m)
                best
                spent
                path
                a
                b
                dir
                role
                log)
        ≤ m
  unfolding passes expansions_of
  passes-Obeys service o k [] h m best spent path a b dir role log l = omega arith
  passes-Obeys service o k (w ∷ ws) h m best spent path a b dir role log l =
      let spec : StageSpec F = record {
        path = path ++ weights k ∷ [];
        role = pass_role;
        searched_by = weighted_astar;
        weight = some w;
        heuristic = or_else h octile;
        stage_budget = some (m - spent);
        from = a;
        to = b;
        start_dir = dir;
        coarse_only = false;
      } in
      let fb = (service spec log).0 in
      let within : fb.result.expansions ≤ m - spent = o spec log (m - spent) refl in
      if_cases (λ g. spent + expansions_of service g ≤ m)
        (is_spent N infinity ctx waypoints_of size_x values
          (left_of N infinity ctx waypoints_of size_x values (some m) spent))
        (λ _. omega arith)
        (λ _.
          if_cases (λ g. spent + (fb.result.expansions + expansions_of service g) ≤ m)
            (is_found fb.result.status)
            (λ _.
              let rest =
                passes-Obeys service o (suc k) ws h m
                  (better N infinity ctx waypoints_of size_x values best fb.result)
                  (spent + fb.result.expansions) path a b dir role
                  (record_search spec fb (service spec log).1) (omega arith) in
              omega arith)
            (λ _. omega arith))

  -- Where each search keeps to the budget that it is given, a leaf with a budget, and an anytime node with
  -- one, over all its passes, spend no more expansions than it.
  pub run-stage_budget :
      (service : Service F)
      → Obeys service
      → (b : ℕ) (s : StrategyAlgorithm) (weight : Option F) (ws : List F)
        (h : Option StrategyHeuristic) (path : List Segment) (from to : ℕ) (dir : Option ℕ)
        (role : StageRole) (log : Log F)
      → (expansions_of service (
            run N infinity ctx waypoints_of size_x values
              (algorithm s weight h (some b))
              path
              from
              to
              dir
              role
              log)
          ≤ b)
        × (expansions_of service (
              run N infinity ctx waypoints_of size_x values
                (anytime ws h (some b))
                path
                from
                to
                dir
                role
                log)
            ≤ b)
  unfolding run run_algorithm expansions_of
  run-stage_budget service o b s weight ws h path from to dir role log =
      let spec : StageSpec F = record {
        path = path;
        role = role;
        searched_by = s;
        weight = weight;
        heuristic = or_else h octile;
        stage_budget = some b;
        from = from;
        to = to;
        start_dir = dir;
        coarse_only = coarse_search role s;
      } in
      let one : (service spec log).0.result.expansions ≤ b = o spec log b refl in
      let all = passes-Obeys service o 0 ws h b none 0 path from to dir role log (omega arith) in
      (omega arith, omega arith)
