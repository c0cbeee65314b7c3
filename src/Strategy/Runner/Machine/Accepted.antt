-- ===== src/Strategy/Runner/Machine/Accepted.antt =====
-- The runner over a strategy that the validator accepted.
use agentsimjs.Prelude.{ℕ, ◌≡◌, Bool, true, List, [], Option, some, ok}
use agentsimjs.Expr.Syntax.{Text, Numbers, Context}
use agentsimjs.Strategy.Tree.{StrategyNode}
use agentsimjs.Strategy.Document.{document}
use agentsimjs.Strategy.Validate.{StrategyValidationOptions, validate_planning_strategy}
use agentsimjs.Strategy.Runner.{StageSpec, Log, Gen, plan_role}
use agentsimjs.Strategy.Runner.Run.{is_found, run}
use agentsimjs.Strategy.Runner.Paths.{IsPath, Route}
use agentsimjs.Strategy.Runner.Delivers.{Service, Truthful}
use agentsimjs.Strategy.Runner.Outcome.{validate_planning_strategy-run}
use agentsimjs.Strategy.Runner.Searches.{search_limit, run-search_limit}
use agentsimjs.Strategy.Runner.Machine.{RunnerOutcome, new_runner}
use agentsimjs.Strategy.Runner.Machine.Host.{host, outcome_of, host-drive}

module _ (N : Numbers) (infinity : N.F) (ctx : Context) (waypoints_of : List ℕ → List ℕ)
    (size_x : ℕ) (values : Text → Option N.F) (Adjacent : ℕ → ℕ → Type 0)
    (smooth : (a b : ℕ) (cells : List ℕ)
      → IsPath Adjacent a b cells
      → Route a b (waypoints_of cells))
    (in_range : N.F → Bool) (opts : StrategyValidationOptions) where
  open N use {F}

  -- A strategy that the validator accepted comes to an outcome without throwing, within the number of
  -- searches that its tree bounds, where the searches are answered truthfully; and an outcome reported as
  -- found is a path from the start to the goal: one search's path, or the joined legs of a refine.
  pub validate_planning_strategy-host :
      (root : StrategyNode F)
      → validate_planning_strategy N in_range ctx opts (document root) ≡ ok tt
      → (service : Service F)
      → ((spec : StageSpec F) (log : Log F) → Truthful Adjacent spec (service spec log).0.result)
      → (from to : ℕ) (dir : Option ℕ)
      → (o : RunnerOutcome F) × ((host service (search_limit root) (
              new_runner (λ log.
                run N infinity ctx waypoints_of size_x values root [] from to dir plan_role log))
            ≡ some o)
          × (is_found o.status ≡ true → IsPath Adjacent from to o.cells))
  validate_planning_strategy-host root h service t from to dir =
      let begin : Log F → Gen F =
        λ log. run N infinity ctx waypoints_of size_x values root [] from to dir plan_role log in
      let log = (new_runner begin).log in
      let (r, (e, p)) =
        validate_planning_strategy-run N infinity ctx waypoints_of size_x values Adjacent smooth
          in_range opts root h service t from to dir log in
      (
        outcome_of service r,
        (
          host-drive service begin (search_limit root) r
              (run-search_limit N infinity ctx waypoints_of size_x values root [] from to dir
                plan_role log)
              e,
          p,
        ),
      )
