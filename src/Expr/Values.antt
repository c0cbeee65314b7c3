-- ===== src/Expr/Values.antt =====
-- The values of boolean expressions.
use agentsimjs.Prelude.{
  ℕ, ◌≡◌, ◌⊎◌, ◌↔◌, inl, inr, refl, Bool, true, false, List, Option, some, ok, get_elem?, if_cases,
  Option-cases, if◌then◌else◌, subst,
}
use agentsimjs.Expr.Syntax.{
  Text, Numbers, Ty, number, boolean, enum, Context, lookup, BinOp, Node, slot,
}
use agentsimjs.Expr.Compile.{CompiledExpr, compile_expr}
use agentsimjs.Expr.Typing.{
  HasType, const_number, const_true, const_false, const_enum, slot_typed, neg_typed, not_typed,
  bin_typed, Operates, or_boolean, and_boolean, lt_number, le_number, gt_number, ge_number,
  plus_number, minus_number, times_number, divide_number, eq_any, ne_any,
}
use agentsimjs.Expr.Evaluate.{
  truth, not_value, last_value, and_value, or_value, finite_value, bin_value, eval_node,
  evaluate_expr, evaluate_condition,
}
use agentsimjs.Expr.Soundness.Compiled.{slots_of, Checked, compile_expr-Checked}

module _ (N : Numbers) where
  open N use {F, nan, zero_f, one_f, is_nan, is_finite, eq_f}

  -- The values of a boolean: NaN where a part is undefined, 0 or 1.
  abbrev pub IsTruth : F → Type 0
  IsTruth v = (is_nan v ≡ true) ⊎ ((v ≡ zero_f) ⊎ (v ≡ one_f))

  abbrev IsValue : Ty → F → Type 0
  IsValue boolean v = IsTruth v
  IsValue number v = Unit
  IsValue (enum vs) v = Unit

  truth-IsTruth : (b : Bool) → IsTruth (truth N b)
  unfolding truth
  truth-IsTruth true = inr (inr refl)
  truth-IsTruth false = inr (inl refl)

  undefined : IsTruth nan
  undefined = inl N.nan_is_nan

  not_value-IsTruth : (v : F) → IsTruth (not_value N v)
  unfolding not_value
  not_value-IsTruth v =
      if_cases IsTruth (is_nan v) (λ _. undefined)
        (λ _. if_cases IsTruth (eq_f v one_f) (λ _. inr (inl refl)) (λ _. inr (inr refl)))

  last_value-IsTruth : (r : F) → IsTruth (last_value N r)
  unfolding last_value
  last_value-IsTruth r =
      if_cases IsTruth (is_nan r) (λ _. undefined) (λ _. truth-IsTruth (eq_f r one_f))

  and_value-IsTruth : (l r : F) → IsTruth (and_value N l r)
  unfolding and_value
  and_value-IsTruth l r =
      if_cases IsTruth (is_nan l) (λ _. undefined)
        (λ _. if_cases IsTruth (eq_f l zero_f) (λ _. inr (inl refl)) (λ _. last_value-IsTruth r))

  or_value-IsTruth : (l r : F) → IsTruth (or_value N l r)
  unfolding or_value
  or_value-IsTruth l r =
      if_cases IsTruth (is_nan l) (λ _. undefined)
        (λ _. if_cases IsTruth (eq_f l one_f) (λ _. inr (inr refl)) (λ _. last_value-IsTruth r))

  guarded : (b c : Bool) → IsTruth (if b then truth N c else nan)
  guarded b c = if_cases IsTruth b (λ _. truth-IsTruth c) (λ _. undefined)

  bin_value-IsValue :
      (o : BinOp) (a t : Ty) (l r : F) → Operates o a t → IsValue t (bin_value N o l r)
  unfolding bin_value finite_value
  bin_value-IsValue o a t l r or_boolean = or_value-IsTruth l r
  bin_value-IsValue o a t l r and_boolean = and_value-IsTruth l r
  bin_value-IsValue o a t l r lt_number = guarded _ _
  bin_value-IsValue o a t l r le_number = guarded _ _
  bin_value-IsValue o a t l r gt_number = guarded _ _
  bin_value-IsValue o a t l r ge_number = guarded _ _
  bin_value-IsValue o a t l r plus_number = tt
  bin_value-IsValue o a t l r minus_number = tt
  bin_value-IsValue o a t l r times_number = tt
  bin_value-IsValue o a t l r divide_number = tt
  bin_value-IsValue o a t l r eq_any = guarded _ _
  bin_value-IsValue o a t l r ne_any = guarded _ _

  module _ (ctx : Context) where
    -- The slots of boolean variables hold booleans; a slot may also be missing.
    abbrev pub BooleanSlots : (Text → Option ℕ) → List F → Type 0
    BooleanSlots slots s =
        (v : Text) (i : ℕ) (x : F)
        → lookup ctx v ≡ some boolean
        → slots v ≡ some i
        → get_elem? s i ≡ some x
        → IsTruth x

    slot-IsValue :
        (slots : Text → Option ℕ) (s : List F) (v : Text) (i : ℕ) (t : Ty)
        → BooleanSlots slots s
        → lookup ctx v ≡ some t
        → slots v ≡ some i
        → IsValue t (eval_node N (slot i) s)
    unfolding eval_node
    slot-IsValue slots s v i number h e e' = tt
    slot-IsValue slots s v i (enum vs) h e e' = tt
    slot-IsValue slots s v i boolean h e e' = elim (Option-cases (get_elem? s i)) [
      | inl m ↦ rw (m, eval_node) undefined
      | inr (x, m) ↦ rw (m, eval_node) (h v i x e e' m)
    ]

    eval_node-IsValue :
        (slots : Text → Option ℕ) (s : List F) (n : Node F) (t : Ty)
        → BooleanSlots slots s
        → HasType N ctx slots n t
        → IsValue t (eval_node N n s)
    unfolding eval_node
    eval_node-IsValue slots s n t h (const_number v) = tt
    eval_node-IsValue slots s n t h const_true = inr (inr refl)
    eval_node-IsValue slots s n t h const_false = inr (inl refl)
    eval_node-IsValue slots s n t h (const_enum i vs) = tt
    eval_node-IsValue slots s n t h (slot_typed v i t' e e') = slot-IsValue slots s v i t' h e e'
    eval_node-IsValue slots s n t h (neg_typed e d) = tt
    eval_node-IsValue slots s n t h (not_typed e d) = not_value-IsTruth (eval_node N e s)
    eval_node-IsValue slots s n t h (bin_typed o a t' l r ops d d') =
        bin_value-IsValue o a t' (eval_node N l s) (eval_node N r s) ops

    holds : (v : F) → IsTruth v → (eq_f v one_f ≡ true) ↔ (v ≡ one_f)
    holds v (inl e) = (λ h. absurd (let f = N.nan_ne_one v e in cc), λ h. rw h N.one_eq_one)
    holds v (inr (inl e)) = (λ h. absurd (let f = N.zero_ne_one in cc), λ h. rw h N.one_eq_one)
    holds v (inr (inr e)) = (λ h. e, λ h. rw h N.one_eq_one)

    -- A compiled condition evaluates to NaN, 0 or 1 whenever the slots of its boolean variables do,
    -- and it holds exactly when it evaluates to 1: a NaN fails closed.
    pub compile_expr-IsTruth :
        (source : Text) (c : CompiledExpr F) (s : List F)
        → compile_expr N source ctx boolean ≡ ok c
        → BooleanSlots (slots_of N ctx c.variables) s
        → IsTruth (evaluate_expr N c s)
          × ((evaluate_condition N c s ≡ true) ↔ (evaluate_expr N c s ≡ one_f))
    unfolding evaluate_expr evaluate_condition
    compile_expr-IsTruth source c s e h =
        let compiled =
          subst (Checked N ctx source boolean) e (compile_expr-Checked N ctx source boolean) in
        let value =
          eval_node-IsValue (slots_of N ctx c.variables) s c.root boolean h compiled.well_typed in
        (value, holds (eval_node N c.root s) value)
