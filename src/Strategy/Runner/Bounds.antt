-- ===== src/Strategy/Runner/Bounds.antt =====
-- How many searches a strategy asks for.
use agentsimjs.Prelude.{
  ℕ, zero, suc, ◌+◌, ◌*◌, ◌-◌, ◌<◌, ◌≤◌, ◌≡◌, refl, Bool, ◌&&◌, List, [], ◌∷◌, ◌++◌, Option, ltb,
  ltb→lt, length, length-append, get_or, if_cases, arith,
}
use agentsimjs.Expr.Syntax.{Text, Numbers, Context}
use agentsimjs.Strategy.{max_legs, StrategyHeuristic, Segment, local_leg}
use agentsimjs.Strategy.Runner.{
  StageRole, StageFeedback, NodeResult, Log, Gen, finished, search, threw_error, then_run,
}
use agentsimjs.Strategy.Runner.Geometry.{distinct, every, stride_of, thin, points_of, push_cells}
use agentsimjs.Strategy.Runner.Run.{
  is_found, or_else, answer, better, passes, run_legs, after_coarse, left_of, is_spent, is_plan,
}

every_le :
    (m fuel i legs stride : ℕ) (ps : List ℕ) (from : ℕ)
    → legs ≤ i + m * stride
    → length (every fuel i legs stride ps from) ≤ m
unfolding every
every_le m zero i legs stride ps from h = omega arith
every_le zero (suc fuel) i legs stride ps from h =
    if_cases (λ xs. length xs ≤ 0) (ltb i legs)
      {x = get_or ps i from ∷ every fuel (i + stride) legs stride ps from} {y = []}
      (λ t. let k = ltb→lt i legs t in absurd (omega arith)) (λ _. omega arith)
every_le (suc m) (suc fuel) i legs stride ps from h =
    let n : length (every fuel (i + stride) legs stride ps from) ≤ m =
      every_le m fuel (i + stride) legs stride ps from (omega arith) in
    if_cases (λ xs. length xs ≤ suc m) (ltb i legs)
      {x = get_or ps i from ∷ every fuel (i + stride) legs stride ps from} {y = []}
      (λ _. omega arith) (λ _. omega arith)

-- A refine has at most the limit's legs, however long its coarse path is, and a coarse path within the
-- limit keeps its points.
pub points_of-max_legs :
    (ps : List ℕ) (from to : ℕ)
    → (length (points_of ps from to) ≤ suc max_legs)
      × (length ps ≤ suc max_legs → points_of ps from to ≡ ps)
unfolding points_of thin
points_of-max_legs ps from to =
    if_cases (λ qs. (length qs ≤ suc max_legs) × (length ps ≤ suc max_legs → qs ≡ ps))
      (ltb max_legs (length ps - 1))
      (λ t.
        let legs = length ps - 1 in
        let few : length (every legs 0 legs (stride_of legs) ps from) ≤ 64 =
          every_le 64 legs 0 legs (stride_of legs) ps from (omega arith) in
        let over = ltb→lt max_legs (length ps - 1) t in
        (
          omega (
            arith,
            length-append (every legs 0 legs (stride_of legs) ps from) (get_or ps legs to ∷ []),
          ),
          λ h. absurd (omega arith),
        ))
      (λ t. let k : ¬ (max_legs < length ps - 1) = ground arith in (omega arith, λ _. refl))

-- Whatever the searches answer, at most `n` of them.
unfoldable pub AtMost : {W : Type 0} → ℕ → Gen W → Type 0
AtMost n (finished r log) = Unit
AtMost zero (search spec log answer) = ⊥
AtMost {W} (suc n) (search spec log answer) =
    (fb : StageFeedback W) (log' : Log W) → AtMost n (answer fb log')
AtMost n threw_error = Unit

module _ {W : Type 0} where
  pub AtMost-mono : (n m : ℕ) (g : Gen W) → n ≤ m → AtMost n g → AtMost m g
  unfolding AtMost
  AtMost-mono n m (finished r log) h a = tt
  AtMost-mono n m threw_error h a = tt
  AtMost-mono zero m (search spec log k) h a = absurd a
  AtMost-mono (suc n) zero (search spec log k) h a = absurd (omega arith)
  AtMost-mono (suc n) (suc m) (search spec log k) h a =
      λ fb log'. AtMost-mono n m (k fb log') (omega arith) (a fb log')

  pub AtMost-then :
      (n m : ℕ) (g : Gen W) (k : NodeResult W → Log W → Gen W)
      → AtMost n g
      → ((r : NodeResult W) (log : Log W) → AtMost m (k r log))
      → AtMost (n + m) (then_run g k)
  unfolding AtMost then_run
  AtMost-then n m (finished r log) k a h = AtMost-mono m (n + m) (k r log) (omega arith) (h r log)
  AtMost-then n m threw_error k a h = tt
  AtMost-then zero m (search spec log f) k a h = absurd a
  AtMost-then (suc n) m (search spec log f) k a h =
      AtMost-mono (suc (n + m)) (suc n + m) (search spec log (λ fb log'. then_run (f fb log') k))
        (omega arith) (λ fb log'. AtMost-then n m (f fb log') k (a fb log') h)

module _ (N : Numbers) (infinity : N.F) (ctx : Context) (waypoints_of : List ℕ → List ℕ)
    (size_x : ℕ) (values : Text → Option N.F) where
  open N use {F, nan, zero_f, add_f, lt_f}

  pub passes-AtMost :
      (k : ℕ) (ws : List F) (h : Option StrategyHeuristic) (m : Option ℕ)
      (best : Option (List ℕ × F)) (spent : ℕ) (path : List Segment) (a b : ℕ) (dir : Option ℕ)
      (role : StageRole) (log : Log F)
      → AtMost (length ws) (
          passes N infinity ctx waypoints_of size_x values k ws h m best spent path a b dir role
            log)
  unfolding passes AtMost
  passes-AtMost k [] h m best spent path a b dir role log = tt
  passes-AtMost k (w ∷ ws) h m best spent path a b dir role log =
      if_cases (AtMost (suc (length ws)))
        (is_spent N infinity ctx waypoints_of size_x values
          (left_of N infinity ctx waypoints_of size_x values m spent))
        (λ _. tt)
        (λ _ fb log'.
          if_cases (AtMost (length ws)) (is_found fb.result.status)
            (λ _.
              passes-AtMost (suc k) ws h m
                (better N infinity ctx waypoints_of size_x values best fb.result)
                (spent + fb.result.expansions) path a b dir role _)
            (λ _. tt))

  run_legs-AtMost :
      (local : List Segment → ℕ → ℕ → Option ℕ → Log F → Gen F) (publish : Bool) (total k : ℕ)
      (path : List Segment) (ps cells : List ℕ) (cost : F) (dir : Option ℕ) (role : StageRole)
      (log : Log F) (m n : ℕ)
      → ((path : List Segment) (a b : ℕ) (dir : Option ℕ) (log : Log F)
          → AtMost n (local path a b dir log))
      → length ps ≤ suc m
      → AtMost (m * n) (
          run_legs N infinity ctx waypoints_of size_x values local publish total k path ps cells
            cost dir role log)
  unfolding run_legs AtMost
  run_legs-AtMost local publish total k path [] cells cost dir role log m n h l = tt
  run_legs-AtMost local publish total k path (a ∷ []) cells cost dir role log m n h l = tt
  run_legs-AtMost local publish total k path (a ∷ b ∷ ps) cells cost dir role log zero n h l =
      absurd (omega arith)
  run_legs-AtMost local publish total k path (a ∷ b ∷ ps) cells cost dir role log (suc m) n h l =
      AtMost-mono (n + m * n) (suc m * n) _ (omega arith) (
        AtMost-then n (m * n) (local (path ++ local_leg k ∷ []) a b dir log) _
          (h (path ++ local_leg k ∷ []) a b dir log)
          (λ leg log'.
            if_cases (AtMost (m * n)) (is_found leg.status)
              (λ _.
                run_legs-AtMost local publish total (suc k) path (b ∷ ps)
                  (push_cells cells leg.cells) (add_f cost leg.cost) _ role _ m n h (omega arith))
              (λ _. tt)))

  pub after_coarse-AtMost :
      (local : List Segment → ℕ → ℕ → Option ℕ → Log F → Gen F) (lazy : Bool) (path : List Segment)
      (from to : ℕ) (dir : Option ℕ) (role : StageRole) (r : NodeResult F) (log : Log F) (n : ℕ)
      → ((path : List Segment) (a b : ℕ) (dir : Option ℕ) (log : Log F)
          → AtMost n (local path a b dir log))
      → AtMost (max_legs * n) (
          after_coarse N infinity ctx waypoints_of size_x values local lazy path from to dir role r
            log)
  unfolding after_coarse AtMost
  after_coarse-AtMost local lazy path from to dir role r log n h =
      let ps = distinct (or_else r.waypoints (from ∷ to ∷ [])) in
      let (few, _) = points_of-max_legs ps from to in
      if_cases (AtMost (max_legs * n)) (is_found r.status)
        (λ _.
          if_cases (AtMost (max_legs * n)) (ltb (length ps) 2) (λ _. tt)
            (λ _.
              run_legs-AtMost local (lazy && is_plan role) (length (points_of ps from to)) 0 path
                (points_of ps from to) [] zero_f dir role _ max_legs n h few))
        (λ _. tt)
