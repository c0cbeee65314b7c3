-- ===== src/Strategy/Valid/Whole.antt =====
-- The validator accepts exactly the valid documents of at most the limit's nodes.
use agentsimjs.Prelude.{
  ℕ, zero, suc, ◌+◌, ◌-◌, ◌≤◌, subst, Accepts, ◌≡◌, ◌↔◌, refl, sym, ◌∙◌, Bool, true, false, List,
  [], ◌∷◌, ◌++◌, ok, ◌>>=◌, ◌>>◌, ltb, arith,
}
use agentsimjs.Expr.Syntax.{Numbers, Context}
use agentsimjs.Strategy.{
  max_depth, max_nodes, branches, stages, else_branch, coarse, local, Segment,
}
use agentsimjs.Strategy.Document.{
  RawNode, malformed, raw_algorithm, raw_anytime, raw_select, raw_select_no_else, raw_fallback,
  raw_refine, RawStages, raw_nil, raw_cons, RawBranches, raw_end, raw_branch, strategy_too_large,
  strategy_too_deep, whole,
}
use agentsimjs.Strategy.Validate.{
  StrategyValidationOptions, Checked, fail, refuse_if, own, validate_planning_strategy,
}
use agentsimjs.Strategy.InOrder.{
  enter, visit, visit_stages, visit_branches, validate_planning_strategy-visit,
}
use agentsimjs.Strategy.Valid.{
  OwnFits, Valid, ValidStages, ValidBranches, raw_size, raw_size_stages, raw_size_branches,
}
use agentsimjs.Strategy.Valid.Decides.{
  Decides, Decides-fail, Decides-bind, Decides-↔, Decides-at_most, Decides-ok, also,
}
use agentsimjs.Strategy.Valid.Own.{own-Decides}

-- A part that takes `a` nodes, then one that takes `b`.
takes :
    {P Q : Type 0} {m : Checked ℕ} {f : ℕ → Checked ℕ} {left : ℕ} (a b : ℕ)
    → Decides (λ l. P × (a + l ≡ left)) m
    → ((l : ℕ) → Decides (λ r. Q × (b + r ≡ l)) (f l))
    → Decides (λ r. (P × Q) × ((a + b) + r ≡ left)) (m >>= f)
takes {P} {Q} {m} {f} {left} a b h k =
    Decides-↔ (λ r. (P × Q) × ((a + b) + r ≡ left)) (m >>= f)
      (Decides-bind (λ l. P × (a + l ≡ left)) (λ l r. Q × (b + r ≡ l)) m f h k)
      (λ r (l, ((p, e), (q, g))). ((p, q), omega arith))
      (λ r ((p, q), e). (b + r, ((p, omega arith), (q, refl))))

takes_none : (left : ℕ) → Decides (λ l. Unit {0} × (0 + l ≡ left)) (ok left)
takes_none left =
    Decides-↔ (λ l. Unit {0} × (0 + l ≡ left)) (ok left) (Decides-ok left)
      (λ l e. (tt, omega arith)) (λ l (_, e). omega arith)

module _ (N : Numbers) (in_range : N.F → Bool) (ctx : Context)
    (opts : StrategyValidationOptions) where
  open N use {F}

  enter-Decides :
      (n : RawNode F) (p : List Segment) (d : ℕ) (lazy : Bool) (left : ℕ)
      → Decides
          (λ l. ((d ≤ max_depth) × OwnFits N in_range ctx opts n lazy) × (1 + l ≡ left))
          (enter N in_range ctx opts n p d lazy left)
  unfolding enter
  enter-Decides n p d lazy zero =
      Decides-↔ (λ l. ((d ≤ max_depth) × OwnFits N in_range ctx opts n lazy) × (1 + l ≡ 0))
        (refuse_if (ltb max_depth d) strategy_too_deep p whole >> fail strategy_too_large p whole)
        (also (Decides-at_most d max_depth strategy_too_deep p whole)
          (Decides-fail {A = ℕ} strategy_too_large p whole))
        (λ l (_, h). absurd h) (λ l (_, e). absurd (omega arith))
  enter-Decides n p d lazy (suc left) =
      Decides-↔ (λ l. ((d ≤ max_depth) × OwnFits N in_range ctx opts n lazy) × (1 + l ≡ suc left))
        (refuse_if (ltb max_depth d) strategy_too_deep p whole
          >> (own N in_range ctx opts n p lazy >> ok left))
        (also (Decides-at_most d max_depth strategy_too_deep p whole)
          (also (own-Decides N in_range ctx opts n p lazy) (Decides-ok left)))
        (λ l (h, (o, e)). ((h, o), omega arith)) (λ l ((h, o), e). (h, (o, omega arith)))

  mutual
    unfolding visit visit_stages visit_branches Valid ValidStages ValidBranches raw_size
        raw_size_stages raw_size_branches

    visit-Decides :
        (n : RawNode F) (p : List Segment) (d : ℕ) (lazy : Bool) (left : ℕ)
        → Decides
            (λ l. Valid N in_range ctx opts n d lazy × (raw_size n + l ≡ left))
            (visit N in_range ctx opts n p d lazy left)
    visit-Decides (malformed f) p d lazy left =
        Decides-↔ (λ l. ⊥ × (1 + l ≡ left)) (enter N in_range ctx opts (malformed f) p d lazy left)
          (enter-Decides (malformed f) p d lazy left) (λ l ((_, h), _). absurd h)
          (λ l (h, _). absurd h)
    visit-Decides (raw_select_no_else bs) p d lazy left =
        Decides-↔ (λ l. ⊥ × (1 + l ≡ left))
          (enter N in_range ctx opts (raw_select_no_else bs) p d lazy left)
          (enter-Decides (raw_select_no_else bs) p d lazy left) (λ l ((_, h), _). absurd h)
          (λ l (h, _). absurd h)
    visit-Decides (raw_algorithm a w h b) p d lazy left =
        enter-Decides (raw_algorithm a w h b) p d lazy left
    visit-Decides (raw_anytime ws h b) p d lazy left =
        enter-Decides (raw_anytime ws h b) p d lazy left
    visit-Decides (raw_select bs e) p d lazy left =
        takes 1 (raw_size_branches bs + raw_size e) (enter-Decides (raw_select bs e) p d lazy left)
          (λ l.
            takes (raw_size_branches bs) (raw_size e) (visit_branches-Decides 0 bs p d lazy l)
              (λ l. visit-Decides e (p ++ else_branch ∷ []) (d + 1) lazy l))
    visit-Decides (raw_fallback ns) p d lazy left =
        takes 1 (raw_size_stages ns) (enter-Decides (raw_fallback ns) p d lazy left)
          (λ l. visit_stages-Decides 0 ns p d l)
    visit-Decides (raw_refine c n z) p d lazy left =
        takes 1 (raw_size c + raw_size n) (enter-Decides (raw_refine c n z) p d lazy left) (λ l.
          takes (raw_size c) (raw_size n) (visit-Decides c (p ++ coarse ∷ []) (d + 1) false l)
            (λ l. visit-Decides n (p ++ local ∷ []) (d + 1) false l))

    visit_stages-Decides :
        (i : ℕ) (ns : RawStages F) (p : List Segment) (d left : ℕ)
        → Decides
            (λ l. ValidStages N in_range ctx opts ns d × (raw_size_stages ns + l ≡ left))
            (visit_stages N in_range ctx opts i ns p d left)
    visit_stages-Decides i raw_nil p d left = takes_none left
    visit_stages-Decides i (raw_cons n ns) p d left =
        takes (raw_size n) (raw_size_stages ns)
          (visit-Decides n (p ++ stages i ∷ []) (d + 1) false left)
          (λ l. visit_stages-Decides (suc i) ns p d l)

    visit_branches-Decides :
        (i : ℕ) (bs : RawBranches F) (p : List Segment) (d : ℕ) (lazy : Bool) (left : ℕ)
        → Decides
            (λ l. ValidBranches N in_range ctx opts bs d lazy × (raw_size_branches bs + l ≡ left))
            (visit_branches N in_range ctx opts i bs p d lazy left)
    visit_branches-Decides i raw_end p d lazy left = takes_none left
    visit_branches-Decides i (raw_branch c n bs) p d lazy left =
        takes (raw_size n) (raw_size_branches bs)
          (visit-Decides n (p ++ branches i ∷ []) (d + 1) lazy left)
          (λ l. visit_branches-Decides (suc i) bs p d lazy l)

  whole-Decides :
      (root : RawNode F)
      → Decides
          (λ _. Valid N in_range ctx opts root 1 true × (raw_size root ≤ max_nodes))
          (visit N in_range ctx opts root [] 1 true max_nodes >>= λ _. ok tt)
  whole-Decides root =
      Decides-↔ (λ _. Valid N in_range ctx opts root 1 true × (raw_size root ≤ max_nodes))
        (visit N in_range ctx opts root [] 1 true max_nodes >>= λ _. ok tt)
        (Decides-bind (λ l. Valid N in_range ctx opts root 1 true × (raw_size root + l ≡ max_nodes))
          (λ l u. tt ≡ u) (visit N in_range ctx opts root [] 1 true max_nodes) (λ _. ok tt)
          (visit-Decides root [] 1 true max_nodes) (λ _. Decides-ok tt))
        (λ u (l, ((v, e), _)). (v, omega arith))
        (λ u (v, h). (max_nodes - raw_size root, ((v, omega arith), refl)))

  -- The validator accepts a document exactly where it is valid and has at most the limit's nodes: at every
  -- node the values fit, the depth is at most the limit's, and a lazy refine stands where it may.
  pub validate_planning_strategy-Valid :
      (root : RawNode F)
      → (validate_planning_strategy N in_range ctx opts root ≡ ok tt)
        ↔ (Valid N in_range ctx opts root 1 true × (raw_size root ≤ max_nodes))
  validate_planning_strategy-Valid root =
      let d = whole-Decides root in
      let e = validate_planning_strategy-visit N in_range ctx opts root in
      (
        λ h.
            subst
              (Accepts (λ _. Valid N in_range ctx opts root 1 true × (raw_size root ≤ max_nodes)))
              (sym e ∙ h) d.sound,
        λ v. e ∙ d.complete tt v,
      )
