-- ===== src/Strategy/Runner/Delivers.antt =====
-- A strategy's result, where every search of it finds what it was asked for.
use agentsimjs.Prelude.{
  ℕ, suc, ◌+◌, ◌≡◌, refl, Bool, true, false, List, [], ◌∷◌, Option, none, some, if_cases,
}
use agentsimjs.Expr.Syntax.{Text, Numbers, Context}
use agentsimjs.Strategy.{StrategyAlgorithm, StrategyHeuristic, Segment}
use agentsimjs.Strategy.Runner.{
  StageRole, plan_role, coarse_role, leg_role, pass_role, Status, found, not_found, budget_exceeded,
  StageSpec, StageResult, StageFeedback, NodeResult, Log, Gen, finished, search, threw_error,
  then_run,
}
use agentsimjs.Strategy.Runner.Run.{
  is_found, is_coarse, coarse_search, failed, answer, algorithm_result, run_algorithm,
  anytime_result, better, passes, left_of, is_spent,
}
use agentsimjs.Strategy.Runner.Paths.{IsPath, Route}

-- What answers the searches, knowing what is logged, and leaves a log.
abbrev pub Service : Type 0 → Type 0
Service W = StageSpec W → Log W → StageFeedback W × Log W

-- A run to its end: the result, or none where it throws.
unfoldable pub drive : {W : Type 0} → Service W → Gen W → Option (NodeResult W)
drive service (finished r log) = some r
drive service (search spec log answer) =
    let (fb, log') = service spec log in drive service (answer fb log')
drive service threw_error = none

-- Only an abstract search has to come with waypoints.
abbrev pub WaypointsFit : Option (List ℕ) → Bool → ℕ → ℕ → Type 0
WaypointsFit none coarse_only a b = coarse_only ≡ false
WaypointsFit (some ws) coarse_only a b = Route a b ws

abbrev pub RouteIf : Option (List ℕ) → ℕ → ℕ → Type 0
RouteIf none a b = Unit
RouteIf (some ws) a b = Route a b ws

module _ {W : Type 0} (Adjacent : ℕ → ℕ → Type 0) where
  -- A search that finds gives what was asked: a path, or the waypoints of one.
  abbrev pub Truthful : StageSpec W → StageResult W → Type 0
  Truthful spec r =
      is_found r.status ≡ true
      → (spec.coarse_only ≡ false → IsPath Adjacent spec.from spec.to r.cells)
        × WaypointsFit r.waypoints spec.coarse_only spec.from spec.to

  -- Whatever truthful searches answer, the node does not throw and its result is as `Q` says.
  unfoldable pub Delivers : (NodeResult W → Type 0) → Gen W → Type 0
  Delivers Q (finished r log) = Q r
  Delivers Q (search spec log answer) =
      (fb : StageFeedback W) (log' : Log W) → Truthful spec fb.result → Delivers Q (answer fb log')
  Delivers Q threw_error = ⊥

  pub Delivers-then :
      (Q R : NodeResult W → Type 0) (g : Gen W) (k : NodeResult W → Log W → Gen W)
      → Delivers Q g
      → ((r : NodeResult W) (log : Log W) → Q r → Delivers R (k r log))
      → Delivers R (then_run g k)
  unfolding Delivers then_run
  Delivers-then Q R (finished r log) k h n = n r log h
  Delivers-then Q R (search spec log a) k h n =
      λ fb log' t. Delivers-then Q R (a fb log') k (h fb log' t) n
  Delivers-then Q R threw_error k h n = absurd h

  pub drive-Delivers :
      (service : Service W) (Q : NodeResult W → Type 0) (g : Gen W)
      → ((spec : StageSpec W) (log : Log W) → Truthful spec (service spec log).0.result)
      → Delivers Q g
      → (r : NodeResult W) × ((drive service g ≡ some r) × Q r)
  unfolding Delivers drive
  drive-Delivers service Q (finished r log) t h = (r, (refl, h))
  drive-Delivers service Q (search spec log a) t h =
      let (fb, log') = service spec log in
      drive-Delivers service Q (a fb log') t (h fb log' (t spec log))
  drive-Delivers service Q threw_error t h = absurd h

  -- A found result is a path, or in the coarse role the waypoints of one.
  abbrev pub Good : StageRole → ℕ → ℕ → NodeResult W → Type 0
  Good role a b r =
      is_found r.status ≡ true
      → (is_coarse role ≡ false → IsPath Adjacent a b r.cells) × RouteIf r.waypoints a b

module _ (N : Numbers) (infinity : N.F) (ctx : Context) (waypoints_of : List ℕ → List ℕ)
    (size_x : ℕ) (values : Text → Option N.F) (Adjacent : ℕ → ℕ → Type 0)
    (smooth : (a b : ℕ) (cells : List ℕ)
      → IsPath Adjacent a b cells
      → Route a b (waypoints_of cells)) where
  open N use {F, nan, zero_f, add_f, lt_f}

  pub answer-Good :
      (role : StageRole) (a b : ℕ) (cells : List ℕ) (cost : F)
      → IsPath Adjacent a b cells
      → Good Adjacent role a b (answer N infinity ctx waypoints_of size_x values role cells cost)
  unfolding answer is_found is_coarse
  answer-Good coarse_role a b cells cost h = λ e. (λ e. h, smooth a b cells h)
  answer-Good plan_role a b cells cost h = λ e. (λ e. h, tt)
  answer-Good leg_role a b cells cost h = λ e. (λ e. h, tt)
  answer-Good pass_role a b cells cost h = λ e. (λ e. h, tt)

  pub failed-Good :
      (role : StageRole) (a b : ℕ) (s : Status)
      → is_found s ≡ false
      → Good Adjacent role a b (failed N infinity ctx waypoints_of size_x values s)
  failed-Good role a b s h = λ e. cc (h, e)

  algorithm_result-Good :
      (s : StrategyAlgorithm) (role : StageRole) (a b : ℕ) (status : Status) (cells : List ℕ)
      (cost : F) (expansions : ℕ) (waypoints : Option (List ℕ))
      → (is_found status ≡ true
          → (coarse_search role s ≡ false → IsPath Adjacent a b cells)
            × WaypointsFit waypoints (coarse_search role s) a b)
      → Good Adjacent role a b (
          algorithm_result N infinity ctx waypoints_of size_x values role (record {
            status = status;
            cells = cells;
            cost = cost;
            expansions = expansions;
            waypoints = waypoints;
          }))
  unfolding algorithm_result is_found coarse_search is_coarse
  algorithm_result-Good s role a b not_found cells cost n ws t = failed-Good role a b not_found refl
  algorithm_result-Good s role a b budget_exceeded cells cost n ws t =
      failed-Good role a b budget_exceeded refl
  algorithm_result-Good s role a b found cells cost n none t =
      let (path, c) = t refl in answer-Good role a b cells cost (path c)
  algorithm_result-Good s coarse_role a b found cells cost n (some ws) t =
      λ e. let (_, r) = t refl in (λ e. cc e, r)
  algorithm_result-Good s plan_role a b found cells cost n (some ws) t =
      λ e. let (path, r) = t refl in (λ _. path refl, tt)
  algorithm_result-Good s leg_role a b found cells cost n (some ws) t =
      λ e. let (path, r) = t refl in (λ _. path refl, tt)
  algorithm_result-Good s pass_role a b found cells cost n (some ws) t =
      λ e. let (path, r) = t refl in (λ _. path refl, tt)

  pub run_algorithm-Delivers :
      (s : StrategyAlgorithm) (w : Option F) (h : Option StrategyHeuristic) (m : Option ℕ)
      (path : List Segment) (a b : ℕ) (dir : Option ℕ) (role : StageRole) (log : Log F)
      → Delivers Adjacent
          (Good Adjacent role a b)
          (run_algorithm N infinity ctx waypoints_of size_x values s w h m path a b dir role log)
  unfolding Delivers run_algorithm
  run_algorithm-Delivers s w h m path a b dir role log = λ fb log' t.
      let r = fb.result in
      algorithm_result-Good s role a b r.status r.cells r.cost r.expansions r.waypoints t

  abbrev BestFits : ℕ → ℕ → Option (List ℕ × F) → Type 0
  BestFits a b none = Unit
  BestFits a b (some (cells, cost)) = IsPath Adjacent a b cells

  anytime_result-Good :
      (role : StageRole) (a b : ℕ) (best : Option (List ℕ × F)) (failure : Status)
      → is_found failure ≡ false
      → BestFits a b best
      → Good Adjacent role a b
          (anytime_result N infinity ctx waypoints_of size_x values role best failure)
  unfolding anytime_result
  anytime_result-Good role a b none failure e h = failed-Good role a b failure e
  anytime_result-Good role a b (some (cells, cost)) failure e h = answer-Good role a b cells cost h

  better-fits :
      (a b : ℕ) (best : Option (List ℕ × F)) (r : StageResult F)
      → BestFits a b best
      → IsPath Adjacent a b r.cells
      → BestFits a b (better N infinity ctx waypoints_of size_x values best r)
  unfolding better
  better-fits a b none r g h = h
  better-fits a b (some (cells, cost)) r g h =
      if_cases (BestFits a b) (lt_f r.cost cost) (λ _. h) (λ _. g)

  pub passes-Delivers :
      (k : ℕ) (ws : List F) (h : Option StrategyHeuristic) (m : Option ℕ)
      (best : Option (List ℕ × F)) (spent : ℕ) (path : List Segment) (a b : ℕ) (dir : Option ℕ)
      (role : StageRole) (log : Log F)
      → BestFits a b best
      → Delivers Adjacent (Good Adjacent role a b) (
          passes N infinity ctx waypoints_of size_x values k ws h m best spent path a b dir role
            log)
  unfolding passes Delivers
  passes-Delivers k [] h m best spent path a b dir role log g =
      anytime_result-Good role a b best not_found refl g
  passes-Delivers k (w ∷ ws) h m best spent path a b dir role log g =
      if_cases (Delivers Adjacent (Good Adjacent role a b))
        (is_spent N infinity ctx waypoints_of size_x values
          (left_of N infinity ctx waypoints_of size_x values m spent))
        (λ _. anytime_result-Good role a b best not_found refl g)
        (λ _ fb log' t.
          if_cases (Delivers Adjacent (Good Adjacent role a b)) (is_found fb.result.status)
            (λ e.
              let (p, _) = t e in
              passes-Delivers (suc k) ws h m
                (better N infinity ctx waypoints_of size_x values best fb.result)
                (spent + fb.result.expansions) path a b dir role _
                (better-fits a b best fb.result g (p refl)))
            (λ e. anytime_result-Good role a b best fb.result.status e g))
