-- ===== src/Strategy/Tests.antt =====
-- One strategy over a line of cells: a fallback while the battery is low, else a lazy refine.
use agentsimjs.Prelude.{
  ℕ, zero, suc, ◌+◌, ◌-◌, ◌≡◌, ◌≤◌, ◌↔◌, refl, subst, Bool, true, false, List, [], ◌∷◌, Option,
  none, some, ok, err, leb, leb→le, ◌>>=◌, if◌then◌else◌, if_cases, arith, length, min,
}
use agentsimjs.Expr.Syntax.{Text}
use agentsimjs.Expr.Parser.{
  is_word, peek, binary_of, count, advance, name_atom, is_product, is_sum, is_comparison,
  need_number, compare_with, is_equality, make_binary, need_boolean, expect_end,
}
use agentsimjs.Expr.Grammar.{or_}
use agentsimjs.Expr.Compile.{compile_expr}
use agentsimjs.Expr.Evaluate.{evaluate_condition}
use agentsimjs.Expr.Tests.{naturals, drone, guard}
use agentsimjs.Strategy.{max_nodes, max_legs, dijkstra, astar, hpa, else_branch, coarse}
use agentsimjs.Strategy.Tree.{
  StrategyNode, algorithm, anytime, select, fallback, refine, nil, cons, end, branch, size,
  strategy_facts,
}
use agentsimjs.Strategy.Contains.{
  nodes, is_hpa_leaf, is_lazy_refine, some_node, strategy_facts-some_node,
}
use agentsimjs.Strategy.Document.{
  document, algorithm_of, profile_feature_unsupported, algorithm_field,
}
use agentsimjs.Strategy.Validate.{StrategyValidationOptions, validate_planning_strategy}
use agentsimjs.Strategy.InOrder.{visit, validate_planning_strategy-visit}
use agentsimjs.Strategy.Valid.{Valid, raw_size}
use agentsimjs.Strategy.Valid.Whole.{validate_planning_strategy-Valid}
use agentsimjs.Strategy.Valid.Parsed.{validate_planning_strategy-document}
use agentsimjs.Strategy.Runner.{StageSpec, Log, found, not_found, plan_role}
use agentsimjs.Strategy.Runner.Geometry.{points_of}
use agentsimjs.Strategy.Runner.Run.{is_found, run}
use agentsimjs.Strategy.Runner.Paths.{Walks, IsPath, Walks-at_last, Route}
use agentsimjs.Strategy.Runner.Delivers.{Service, drive, Truthful}
use agentsimjs.Strategy.Runner.Machine.{RunnerOutcome, new_runner}
use agentsimjs.Strategy.Runner.Machine.Host.{host}
use agentsimjs.Strategy.Runner.Machine.Accepted.{validate_planning_strategy-host}
use agentsimjs.Strategy.Agent.{check_strategy_for_agent}
use agentsimjs.Strategy.Agent.Fits.{FitsAgent, check_strategy_for_agent-FitsAgent}
use agentsimjs.Strategy.Runner.Bounds.{AtMost, points_of-max_legs}
use agentsimjs.Strategy.Runner.Searches.{search_limit, run-search_limit}
use agentsimjs.Strategy.Runner.Budget.{expansions_of, Obeys, run-stage_budget}

abbrev careful : StrategyNode (Option ℕ)
careful =
    select
      (branch guard
        (fallback (
          cons (algorithm astar none none (some 5)) (cons (algorithm dijkstra none none none) nil)))
        end)
      (refine (algorithm hpa none none none) (anytime (some 3 ∷ some 2 ∷ []) none (some 5)) true)

abbrev weight_in_range : Option ℕ → Bool
weight_in_range (some w) = leb 1 w
weight_in_range none = false

abbrev anywhere : StrategyValidationOptions
anywhere = record { four_connected = false; unavailable = λ v. false }

strategy_facts-some_node_example :
    ((strategy_facts careful).hpa ≡ some_node is_hpa_leaf (nodes careful))
    × ((strategy_facts careful).lazy_refine ≡ some_node is_lazy_refine (nodes careful))
strategy_facts-some_node_example = strategy_facts-some_node careful

careful_is_accepted :
    validate_planning_strategy naturals weight_in_range drone anywhere (document careful) ≡ ok tt
unfolding validate_planning_strategy document compile_expr or_ is_word peek binary_of count advance
    name_atom is_product is_sum is_comparison need_number compare_with is_equality make_binary
    need_boolean expect_end algorithm_of
careful_is_accepted = refl

validate_planning_strategy-visit_example :
    validate_planning_strategy naturals weight_in_range drone anywhere (document careful) ≡ (
      visit naturals weight_in_range drone anywhere (document careful) [] 1 true max_nodes >>= λ _.
      ok tt)
validate_planning_strategy-visit_example =
    validate_planning_strategy-visit naturals weight_in_range drone anywhere (document careful)

validate_planning_strategy-Valid_example :
    (validate_planning_strategy naturals weight_in_range drone anywhere (document careful) ≡ ok tt)
    ↔ (Valid naturals weight_in_range drone anywhere (document careful) 1 true
        × (raw_size (document careful) ≤ max_nodes))
validate_planning_strategy-Valid_example =
    validate_planning_strategy-Valid naturals weight_in_range drone anywhere (document careful)

validate_planning_strategy-document_example :
    (t : StrategyNode (Option ℕ)) × ((document careful ≡ document t) × (size t ≤ max_nodes))
validate_planning_strategy-document_example =
    validate_planning_strategy-document naturals weight_in_range drone anywhere (document careful)
      careful_is_accepted

-- The cells of a line: neighbours differ by 1.
abbrev Next : ℕ → ℕ → Type 0
Next a b = b ≡ a + 1

up : ℕ → ℕ → List ℕ
up zero a = []
up (suc n) a = (a + 1) ∷ up n (a + 1)

Walks-up : (n a : ℕ) → Walks Next a (up n a) (a + n)
unfolding up
Walks-up zero a = omega arith
Walks-up (suc n) a =
    (refl, subst (Walks Next (a + 1) (up n (a + 1))) (omega arith) (Walks-up n (a + 1)))

leb→end : (a b : ℕ) → is_found (if leb a b then found else not_found) ≡ true → a + (b - a) ≡ b
unfolding is_found
leb→end a b =
    if_cases (λ s. is_found s ≡ true → a + (b - a) ≡ b) (leb a b)
      (λ e _. let h = leb→le a b e in omega arith) (λ _ e. cc e)

-- It finds the way up, and none down.
abbrev climber : Service (Option ℕ)
unfolding up
climber spec log = (
  record {
    result = record {
      status = if leb spec.from spec.to then found else not_found;
      cells = spec.from ∷ up (spec.to - spec.from) spec.from;
      cost = some (spec.to - spec.from);
      expansions = 1;
      waypoints = some (spec.from ∷ up (spec.to - spec.from) spec.from);
    };
    geometry = none;
    remaining_after = 0;
    started_tick = 0;
    ended_tick = 0;
  },
  log,
)

smooth : (a b : ℕ) (cells : List ℕ) → IsPath Next a b cells → Route a b cells
smooth a b [] h = absurd h
smooth a b (c ∷ cs) (e, h) = (e, Walks-at_last Next c b cs h)

climber-Truthful :
    (spec : StageSpec (Option ℕ)) (log : Log (Option ℕ))
    → Truthful Next spec (climber spec log).0.result
unfolding is_found climber
climber-Truthful spec log = λ e.
    let up_to : IsPath Next spec.from spec.to (spec.from ∷ up (spec.to - spec.from) spec.from) = (
      refl,
      subst (Walks Next spec.from (up (spec.to - spec.from) spec.from))
          (leb→end spec.from spec.to e) (Walks-up (spec.to - spec.from) spec.from),
    ) in
    (λ _. up_to, smooth spec.from spec.to (spec.from ∷ up (spec.to - spec.from) spec.from) up_to)

bounded : Option ℕ → ℕ
bounded none = 1
bounded (some b) = min b 3

-- The same, with as many expansions as it may take and needs.
abbrev bounded_climber : Service (Option ℕ)
unfolding bounded
bounded_climber spec log =
    let fb = (climber spec log).0 in
    (record fb { result = record fb.result { expansions = bounded spec.stage_budget } }, log)

abbrev nothing_logged : Log (Option ℕ)
nothing_logged = record { selects = []; searches = []; thinned = none; legs = [] }

abbrev battery : Text → Option (Option ℕ)
battery v = some (some 1)

validate_planning_strategy-host_example :
    (o : RunnerOutcome (Option ℕ)) × ((host climber (search_limit careful) (
          new_runner (λ log.
            run naturals none drone (λ cells. cells) 9 battery careful [] 2 6 none plan_role log))
        ≡ some o)
      × (is_found o.status ≡ true → IsPath Next 2 6 o.cells))
validate_planning_strategy-host_example =
    validate_planning_strategy-host naturals none drone (λ cells. cells) 9 battery Next smooth
      weight_in_range anywhere careful careful_is_accepted climber climber-Truthful 2 6 none

run-search_limit_example : AtMost (search_limit careful) (
    run naturals none drone (λ cells. cells) 9 battery careful [] 2 6 none plan_role nothing_logged)
run-search_limit_example =
    run-search_limit naturals none drone (λ cells. cells) 9 battery careful [] 2 6 none plan_role
      nothing_logged

careful_limit : search_limit careful ≡ 129
unfolding search_limit
careful_limit = refl

abbrev three : List ℕ
three = 1 ∷ 2 ∷ 3 ∷ []

points_of-max_legs_example :
    (length (points_of three 1 3) ≤ suc max_legs)
    × (length three ≤ suc max_legs → points_of three 1 3 ≡ three)
points_of-max_legs_example = points_of-max_legs three 1 3

climber-Obeys : Obeys bounded_climber
unfolding bounded bounded_climber
climber-Obeys spec log b h = rw (h, bounded) (omega arith)

run-stage_budget_example :
    (expansions_of bounded_climber (
        run naturals none drone
          (λ cells. cells)
          9
          battery
          (algorithm astar none none (some 5))
          []
          2
          6
          none
          plan_role
          nothing_logged)
      ≤ 5)
    × (expansions_of bounded_climber (
          run naturals none drone
            (λ cells. cells)
            9
            battery
            (anytime (some 3 ∷ some 2 ∷ []) none (some 5))
            []
            2
            6
            none
            plan_role
            nothing_logged)
        ≤ 5)
run-stage_budget_example =
    run-stage_budget naturals none drone (λ cells. cells) 9 battery bounded_climber climber-Obeys 5
      astar none (some 3 ∷ some 2 ∷ []) none [] 2 6 none plan_role nothing_logged

-- With nothing known of the battery the refine runs: four legs, joined.
refine_joins :
    drive climber (
      run naturals none drone
        (λ cells. cells)
        9
        (λ v. none)
        careful
        []
        2
        6
        none
        plan_role
        nothing_logged)
    ≡ some
        (record { status = found; cells = 2 ∷ 3 ∷ 4 ∷ 5 ∷ 6 ∷ []; cost = some 4; waypoints = none })
unfolding drive run climber up compile_expr or_ is_word peek binary_of count advance name_atom
    is_product is_sum is_comparison need_number compare_with is_equality make_binary need_boolean
    expect_end evaluate_condition
refine_joins = refl

check_strategy_for_agent-FitsAgent_example :
    (check_strategy_for_agent 10 true careful ≡ ok tt) ↔ FitsAgent careful 10 true
check_strategy_for_agent-FitsAgent_example = check_strategy_for_agent-FitsAgent 10 true careful

turns_refuse_hpa :
    check_strategy_for_agent 10 true careful
    ≡ err (record {
      error_code = profile_feature_unsupported;
      path = else_branch ∷ coarse ∷ [];
      field = algorithm_field;
    })
unfolding check_strategy_for_agent
turns_refuse_hpa = refl
