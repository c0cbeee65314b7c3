-- ===== src/Strategy/InOrder.antt =====
-- The walk of Validate with its stack, against a recursive check of the tree in document order.
use agentsimjs.Prelude.{
  ℕ, zero, suc, ◌+◌, ◌≡◌, refl, sym, ◌∙◌, Bool, true, false, List, [], ◌∷◌, ◌++◌, Result, ok, err,
  ◌>>=◌, ◌>>◌, ltb,
}
use agentsimjs.Expr.Syntax.{Numbers, Context}
use agentsimjs.Strategy.{
  max_depth, max_nodes, branches, stages, else_branch, coarse, local, Segment,
}
use agentsimjs.Strategy.Document.{
  RawNode, malformed, raw_algorithm, raw_anytime, raw_select, raw_select_no_else, raw_fallback,
  raw_refine, RawStages, raw_nil, raw_cons, RawBranches, raw_end, raw_branch, strategy_too_large,
  strategy_too_deep, whole,
}
use agentsimjs.Strategy.Validate.{
  Item, StrategyValidationOptions, Checked, fail, refuse_if, own, child, stage_items, branch_items,
  items, walk, validate_planning_strategy,
}

bind_cong :
    {E A B : Type 0} (m : Result E A) (f g : A → Result E B)
    → ((a : A) → f a ≡ g a)
    → (m >>= f) ≡ (m >>= g)
bind_cong (ok a) f g h = h a
bind_cong (err e) f g h = refl

bind_assoc :
    {E A B C : Type 0} (m : Result E A) (f : A → Result E B) (g : B → Result E C)
    → ((m >>= f) >>= g) ≡ (m >>= λ a. f a >>= g)
bind_assoc (ok a) f g = refl
bind_assoc (err e) f g = refl

step_into :
    {E A B C : Type 0} (m : Result E A) (f : A → Result E B) (g : A → Result E C)
    (k : B → Result E C)
    → ((a : A) → g a ≡ (f a >>= k))
    → (m >>= g) ≡ ((m >>= f) >>= k)
step_into m f g k h = bind_cong m g (λ a. f a >>= k) h ∙ sym (bind_assoc m f k)

module _ (N : Numbers) (in_range : N.F → Bool) (ctx : Context)
    (opts : StrategyValidationOptions) where
  open N use {F}

  -- A node counts against the nodes left, before its depth and then what stands in it are looked at.
  unfoldable pub enter : RawNode F → List Segment → ℕ → Bool → ℕ → Checked ℕ
  enter n p d lazy zero =
      refuse_if (ltb max_depth d) strategy_too_deep p whole >> fail strategy_too_large p whole
  enter n p d lazy (suc left) =
      refuse_if (ltb max_depth d) strategy_too_deep p whole
      >> (own N in_range ctx opts n p lazy >> ok left)

  unfoldable mutual
    pub visit : RawNode F → List Segment → ℕ → Bool → ℕ → Checked ℕ
    visit (malformed f) p d lazy left = enter (malformed f) p d lazy left
    visit (raw_algorithm a w h b) p d lazy left = enter (raw_algorithm a w h b) p d lazy left
    visit (raw_anytime ws h b) p d lazy left = enter (raw_anytime ws h b) p d lazy left
    visit (raw_select_no_else bs) p d lazy left = enter (raw_select_no_else bs) p d lazy left
    visit (raw_select bs e) p d lazy left = enter (raw_select bs e) p d lazy left >>= λ l.
        visit_branches 0 bs p d lazy l >>= λ l. visit e (p ++ else_branch ∷ []) (d + 1) lazy l
    visit (raw_fallback ns) p d lazy left =
        enter (raw_fallback ns) p d lazy left >>= λ l. visit_stages 0 ns p d l
    visit (raw_refine c n z) p d lazy left = enter (raw_refine c n z) p d lazy left >>= λ l.
        visit c (p ++ coarse ∷ []) (d + 1) false l >>= λ l.
        visit n (p ++ local ∷ []) (d + 1) false l

    pub visit_stages : ℕ → RawStages F → List Segment → ℕ → ℕ → Checked ℕ
    visit_stages i raw_nil p d left = ok left
    visit_stages i (raw_cons n ns) p d left =
        visit n (p ++ stages i ∷ []) (d + 1) false left >>= λ l. visit_stages (suc i) ns p d l

    pub visit_branches : ℕ → RawBranches F → List Segment → ℕ → Bool → ℕ → Checked ℕ
    visit_branches i raw_end p d lazy left = ok left
    visit_branches i (raw_branch c n bs) p d lazy left =
        visit n (p ++ branches i ∷ []) (d + 1) lazy left >>= λ l.
        visit_branches (suc i) bs p d lazy l

  rounds : ℕ → List (Item F) → Checked (Unit {0})
  rounds = walk N in_range ctx opts

  walk_none : (left : ℕ) → rounds left [] ≡ ok tt
  unfolding rounds walk
  walk_none zero = refl
  walk_none (suc left) = refl

  walk-enter :
      (n : RawNode F) (p : List Segment) (d : ℕ) (lazy : Bool) (left : ℕ) (st : List (Item F))
      → rounds left (record { node = n; path = p; depth = d; lazy_ok = lazy } ∷ st)
        ≡ (enter n p d lazy left >>= λ l. rounds l (items n p d lazy ++ st))
  unfolding rounds walk enter
  walk-enter n p d lazy zero st = sym (
      bind_assoc (refuse_if (ltb max_depth d) strategy_too_deep p whole)
        (λ _. fail strategy_too_large p whole) (λ l. rounds l (items n p d lazy ++ st)))
  walk-enter n p d lazy (suc left) st =
      let next : ℕ → Checked (Unit {0}) = λ l. rounds l (items n p d lazy ++ st) in
      let check = own N in_range ctx opts n p lazy in
      let deep = refuse_if (ltb max_depth d) strategy_too_deep p whole in
      sym (
        bind_assoc deep (λ _. check >> ok left) next
        ∙ bind_cong deep (λ _. (check >> ok left) >>= next) (λ _. check >> next left)
            (λ _. bind_assoc check (λ _. ok left) next))

  mutual
    unfolding visit visit_stages visit_branches items stage_items branch_items

    walk-visit :
        (n : RawNode F) (p : List Segment) (d : ℕ) (lazy : Bool) (left : ℕ) (st : List (Item F))
        → rounds left (record { node = n; path = p; depth = d; lazy_ok = lazy } ∷ st)
          ≡ (visit n p d lazy left >>= λ l. rounds l st)
    walk-visit (malformed f) p d lazy left st = walk-enter (malformed f) p d lazy left st
    walk-visit (raw_algorithm a w h b) p d lazy left st =
        walk-enter (raw_algorithm a w h b) p d lazy left st
    walk-visit (raw_anytime ws h b) p d lazy left st =
        walk-enter (raw_anytime ws h b) p d lazy left st
    walk-visit (raw_select_no_else bs) p d lazy left st =
        walk-enter (raw_select_no_else bs) p d lazy left st
    walk-visit (raw_select bs e) p d lazy left st =
        let then_else : ℕ → Checked ℕ = λ l. visit e (p ++ else_branch ∷ []) (d + 1) lazy l in
        let finish : ℕ → Checked (Unit {0}) = λ l. rounds l st in
        walk-enter (raw_select bs e) p d lazy left st
        ∙ step_into (enter (raw_select bs e) p d lazy left)
            (λ l. visit_branches 0 bs p d lazy l >>= then_else)
            (λ l. rounds l (branch_items 0 bs p d lazy (child e p else_branch d lazy ∷ []) ++ st))
            finish
            (λ l.
              walk-visit_branches 0 bs p d lazy l (child e p else_branch d lazy ∷ []) st
              ∙ step_into (visit_branches 0 bs p d lazy l) then_else
                  (λ l. rounds l (child e p else_branch d lazy ∷ st)) finish
                  (λ l. walk-visit e (p ++ else_branch ∷ []) (d + 1) lazy l st))
    walk-visit (raw_fallback ns) p d lazy left st =
        walk-enter (raw_fallback ns) p d lazy left st
        ∙ step_into (enter (raw_fallback ns) p d lazy left) (λ l. visit_stages 0 ns p d l)
            (λ l. rounds l (stage_items 0 ns p d ++ st)) (λ l. rounds l st)
            (λ l. walk-visit_stages 0 ns p d l st)
    walk-visit (raw_refine c n z) p d lazy left st =
        let then_local : ℕ → Checked ℕ = λ l. visit n (p ++ local ∷ []) (d + 1) false l in
        let finish : ℕ → Checked (Unit {0}) = λ l. rounds l st in
        walk-enter (raw_refine c n z) p d lazy left st
        ∙ step_into (enter (raw_refine c n z) p d lazy left)
            (λ l. visit c (p ++ coarse ∷ []) (d + 1) false l >>= then_local)
            (λ l. rounds l (child c p coarse d false ∷ child n p local d false ∷ st)) finish
            (λ l.
              walk-visit c (p ++ coarse ∷ []) (d + 1) false l (child n p local d false ∷ st)
              ∙ step_into (visit c (p ++ coarse ∷ []) (d + 1) false l) then_local
                  (λ l. rounds l (child n p local d false ∷ st)) finish
                  (λ l. walk-visit n (p ++ local ∷ []) (d + 1) false l st))

    walk-visit_stages :
        (i : ℕ) (ns : RawStages F) (p : List Segment) (d left : ℕ) (st : List (Item F))
        → rounds left (stage_items i ns p d ++ st)
          ≡ (visit_stages i ns p d left >>= λ l. rounds l st)
    walk-visit_stages i raw_nil p d left st = refl
    walk-visit_stages i (raw_cons n ns) p d left st =
        walk-visit n (p ++ stages i ∷ []) (d + 1) false left (stage_items (suc i) ns p d ++ st)
        ∙ step_into (visit n (p ++ stages i ∷ []) (d + 1) false left)
            (λ l. visit_stages (suc i) ns p d l) (λ l. rounds l (stage_items (suc i) ns p d ++ st))
            (λ l. rounds l st) (λ l. walk-visit_stages (suc i) ns p d l st)

    walk-visit_branches :
        (i : ℕ) (bs : RawBranches F) (p : List Segment) (d : ℕ) (lazy : Bool) (left : ℕ)
        (rest st : List (Item F))
        → rounds left (branch_items i bs p d lazy rest ++ st)
          ≡ (visit_branches i bs p d lazy left >>= λ l. rounds l (rest ++ st))
    walk-visit_branches i raw_end p d lazy left rest st = refl
    walk-visit_branches i (raw_branch c n bs) p d lazy left rest st =
        walk-visit n (p ++ branches i ∷ []) (d + 1) lazy left
          (branch_items (suc i) bs p d lazy rest ++ st)
        ∙ step_into (visit n (p ++ branches i ∷ []) (d + 1) lazy left)
            (λ l. visit_branches (suc i) bs p d lazy l)
            (λ l. rounds l (branch_items (suc i) bs p d lazy rest ++ st))
            (λ l. rounds l (rest ++ st)) (λ l. walk-visit_branches (suc i) bs p d lazy l rest st)

  -- The validator, with its stack, reports what a recursive check of the tree in document order reports:
  -- the first error in that order, of the node counted against the limit, its depth, then its own values.
  pub validate_planning_strategy-visit :
      (root : RawNode F)
      → validate_planning_strategy N in_range ctx opts root
        ≡ (visit root [] 1 true max_nodes >>= λ _. ok tt)
  unfolding validate_planning_strategy rounds walk
  validate_planning_strategy-visit root =
      walk-visit root [] 1 true max_nodes []
      ∙ bind_cong (visit root [] 1 true max_nodes) (λ l. rounds l []) (λ _. ok tt)
          (λ l. walk_none l)
