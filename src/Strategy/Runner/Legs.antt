-- ===== src/Strategy/Runner/Legs.antt =====
-- The legs of a refine join to a path along its points.
use agentsimjs.Prelude.{
  ℕ, suc, ◌-◌, ◌<◌, ◌≤◌, ◌≡◌, refl, sym, subst, Bool, ◌&&◌, List, [], ◌∷◌, ◌++◌, Option, none, some,
  ltb, ltb→lt, length, if_cases, arith,
}
use agentsimjs.Expr.Syntax.{Text, Numbers, Context}
use agentsimjs.Strategy.{max_legs, Segment, local_leg}
use agentsimjs.Strategy.Runner.{StageRole, coarse_role, leg_role, NodeResult, Log, Gen}
use agentsimjs.Strategy.Runner.Geometry.{at_last, distinct, thin, points_of, push_cells}
use agentsimjs.Strategy.Runner.Run.{is_found, or_else, run_legs, after_coarse, is_plan}
use agentsimjs.Strategy.Runner.Paths.{
  IsPath, Reaches, IsPath-Reaches, push_cells-IsPath, Route, distinct-Route, thin-Route,
  length-thin_pos,
}
use agentsimjs.Strategy.Runner.Delivers.{
  Delivers, Delivers-then, RouteIf, Good, answer-Good, failed-Good,
}

or_else-Route : (a b : ℕ) (w : Option (List ℕ)) → RouteIf w a b → Route a b (or_else w (a ∷ b ∷ []))
unfolding at_last
or_else-Route a b none h = (refl, refl)
or_else-Route a b (some ws) h = h

short-Route : (a b : ℕ) (ps : List ℕ) → Route a b ps → length ps < 2 → a ≡ b
unfolding at_last
short-Route a b [] r h = absurd r
short-Route a b (c ∷ []) (e, r) h = cc (e, r)
short-Route a b (c ∷ d ∷ ps) r h = absurd (omega arith)

module _ (N : Numbers) (infinity : N.F) (ctx : Context) (waypoints_of : List ℕ → List ℕ)
    (size_x : ℕ) (values : Text → Option N.F) (Adjacent : ℕ → ℕ → Type 0)
    (smooth : (a b : ℕ) (cells : List ℕ)
      → IsPath Adjacent a b cells
      → Route a b (waypoints_of cells)) where
  open N use {F, nan, zero_f, add_f, lt_f}

  -- A leg's node delivers, wherever the leg starts and ends.
  abbrev pub LegsDeliver : (List Segment → ℕ → ℕ → Option ℕ → Log F → Gen F) → Type 0
  LegsDeliver local =
      (path : List Segment) (a b : ℕ) (dir : Option ℕ) (log : Log F)
      → Delivers Adjacent (Good Adjacent leg_role a b) (local path a b dir log)

  -- what is joined so far reaches the first point left, and is a path where no leg is left
  abbrev Joined : ℕ → ℕ → List ℕ → List ℕ → Type 0
  Joined from to [] cells = ⊥
  Joined from to (a ∷ []) cells = (a ≡ to) × IsPath Adjacent from a cells
  Joined from to (a ∷ b ∷ ps) cells = Route a to (a ∷ b ∷ ps) × Reaches Adjacent from a cells

  next-Joined :
      (from to a b : ℕ) (ps cells leg : List ℕ)
      → Joined from to (a ∷ b ∷ ps) cells
      → IsPath Adjacent a b leg
      → Joined from to (b ∷ ps) (push_cells cells leg)
  unfolding at_last
  next-Joined from to a b [] cells leg ((_, r), h) p =
      (cc r, push_cells-IsPath Adjacent from a b cells leg h p)
  next-Joined from to a b (c ∷ ps) cells leg ((_, r), h) p = (
    (refl, r),
    IsPath-Reaches Adjacent from b (push_cells cells leg)
        (push_cells-IsPath Adjacent from a b cells leg h p),
  )

  run_legs-Delivers :
      (local : List Segment → ℕ → ℕ → Option ℕ → Log F → Gen F) (publish : Bool) (total k : ℕ)
      (path : List Segment) (ps cells : List ℕ) (cost : F) (dir : Option ℕ) (role : StageRole)
      (log : Log F) (from to : ℕ)
      → LegsDeliver local
      → Joined from to ps cells
      → Delivers Adjacent (Good Adjacent role from to) (
          run_legs N infinity ctx waypoints_of size_x values local publish total k path ps cells
            cost dir role log)
  unfolding run_legs Delivers
  run_legs-Delivers local publish total k path [] cells cost dir role log from to d j = absurd j
  run_legs-Delivers local publish total k path (a ∷ []) cells cost dir role log from to d (e, h) =
      answer-Good N infinity ctx waypoints_of size_x values Adjacent smooth role from to cells cost
        (subst (λ x. IsPath Adjacent from x cells) e h)
  run_legs-Delivers local publish total k path (a ∷ b ∷ ps) cells cost dir role log from to d j =
      Delivers-then Adjacent (Good Adjacent leg_role a b) (Good Adjacent role from to)
        (local (path ++ local_leg k ∷ []) a b dir log) _ (d (path ++ local_leg k ∷ []) a b dir log)
        (λ leg log' g.
          if_cases (Delivers Adjacent (Good Adjacent role from to)) (is_found leg.status)
            (λ e.
              let (p, _) = g e in
              run_legs-Delivers local publish total (suc k) path (b ∷ ps)
                (push_cells cells leg.cells) (add_f cost leg.cost) _ role _ from to d
                (next-Joined from to a b ps cells leg.cells j (p refl)))
            (λ e.
              failed-Good N infinity ctx waypoints_of size_x values Adjacent smooth role from to
                leg.status e))

  start-Joined :
      (from to : ℕ) (ps : List ℕ) → Route from to ps → 2 ≤ length ps → Joined from to ps []
  start-Joined from to [] r h = absurd r
  start-Joined from to (a ∷ []) r h = absurd (omega arith)
  start-Joined from to (a ∷ b ∷ ps) (e, r) h = ((refl, r), sym e)

  points_of-Joined :
      (from to : ℕ) (ps : List ℕ)
      → Route from to ps
      → 2 ≤ length ps
      → Joined from to (points_of ps from to) []
  unfolding points_of
  points_of-Joined from to ps r h =
      if_cases (λ qs. Joined from to qs []) (ltb max_legs (length ps - 1))
        (λ _.
          let many : 0 < length ps - 1 = omega arith in
          start-Joined from to (thin (length ps - 1) ps from to)
            (thin-Route from to (length ps - 1) ps refl many r)
            (length-thin_pos from to (length ps - 1) ps many))
        (λ _. start-Joined from to ps r h)

  pub after_coarse-Delivers :
      (local : List Segment → ℕ → ℕ → Option ℕ → Log F → Gen F) (lazy : Bool) (path : List Segment)
      (from to : ℕ) (dir : Option ℕ) (role : StageRole) (r : NodeResult F) (log : Log F)
      → LegsDeliver local
      → Good Adjacent coarse_role from to r
      → Delivers Adjacent (Good Adjacent role from to) (
          after_coarse N infinity ctx waypoints_of size_x values local lazy path from to dir role r
            log)
  unfolding after_coarse Delivers
  after_coarse-Delivers local lazy path from to dir role r log d g =
      let ps = distinct (or_else r.waypoints (from ∷ to ∷ [])) in
      if_cases (Delivers Adjacent (Good Adjacent role from to)) (is_found r.status)
        (λ e.
          let (_, w) = g e in
          let route : Route from to ps =
            distinct-Route from to (or_else r.waypoints (from ∷ to ∷ []))
              (or_else-Route from to r.waypoints w) in
          if_cases (Delivers Adjacent (Good Adjacent role from to)) (ltb (length ps) 2)
            (λ h. λ _. (λ _. (refl, short-Route from to ps route (ltb→lt (length ps) 2 h)), tt))
            (λ h.
              run_legs-Delivers local (lazy && is_plan role) (length (points_of ps from to)) 0 path
                (points_of ps from to) [] zero_f dir role _ from to d
                (points_of-Joined from to ps route (ground arith))))
        (λ e k. cc (e, k))
