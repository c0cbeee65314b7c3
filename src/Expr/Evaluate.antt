-- ===== src/Expr/Evaluate.antt =====
-- `evalNode`, `evaluateExpr` and `evaluateCondition` of expr.ts.
use agentsimjs.Prelude.{Bool, not, ◌&&◌, List, Option, none, some, get_elem?, if◌then◌else◌}
use agentsimjs.Expr.Syntax.{
  Numbers, BinOp, or_op, and_op, lt_op, le_op, gt_op, ge_op, eq_op, plus, minus, times, divide,
  Node, const, slot, neg, not_node, bin,
}
use agentsimjs.Expr.Compile.{CompiledExpr}

module _ (N : Numbers) where
  open N use {
    F, nan, zero_f, one_f, is_nan, is_finite, neg_f, add_f, sub_f, mul_f, div_f, lt_f, le_f, eq_f,
  }

  finite : F → F
  finite v = if is_finite v then v else nan

  unfoldable pub truth : Bool → F
  truth b = if b then one_f else zero_f

  unfoldable pub not_value : F → F
  not_value v = if is_nan v then nan else if eq_f v one_f then zero_f else one_f

  -- The second operand of `and` and of `or`.
  unfoldable pub last_value : F → F
  unfolding truth
  last_value r = if is_nan r then nan else truth (eq_f r one_f)

  unfoldable pub and_value : F → F → F
  unfolding last_value
  and_value l r = if is_nan l then nan else if eq_f l zero_f then zero_f else last_value r

  unfoldable pub or_value : F → F → F
  unfolding last_value
  or_value l r = if is_nan l then nan else if eq_f l one_f then one_f else last_value r

  unfoldable pub finite_value : BinOp → F → F → F
  unfolding finite truth
  finite_value plus l r = finite (add_f l r)
  finite_value minus l r = finite (sub_f l r)
  finite_value times l r = finite (mul_f l r)
  finite_value divide l r = finite (div_f l r)
  finite_value lt_op l r = truth (lt_f l r)
  finite_value le_op l r = truth (le_f l r)
  finite_value gt_op l r = truth (lt_f r l)
  finite_value ge_op l r = truth (le_f r l)
  finite_value eq_op l r = truth (eq_f l r)
  finite_value _ l r = truth (not (eq_f l r))

  unfoldable pub bin_value : BinOp → F → F → F
  unfolding and_value or_value finite_value
  bin_value and_op l r = and_value l r
  bin_value or_op l r = or_value l r
  bin_value o l r = if is_finite l && is_finite r then finite_value o l r else nan

  slot_value : Option F → F
  slot_value none = nan
  slot_value (some v) = v

  unfoldable pub eval_node : Node F → List F → F
  unfolding slot_value not_value bin_value
  eval_node (const v) s = v
  eval_node (slot i) s = slot_value (get_elem? s i)
  eval_node (neg e) s = neg_f (eval_node e s)
  eval_node (not_node e) s = not_value (eval_node e s)
  eval_node (bin o l r) s = bin_value o (eval_node l s) (eval_node r s)

  unfoldable pub evaluate_expr : CompiledExpr F → List F → F
  unfolding eval_node
  evaluate_expr c s = eval_node c.root s

  unfoldable pub evaluate_condition : CompiledExpr F → List F → Bool
  unfolding eval_node
  evaluate_condition c s = eq_f (eval_node c.root s) one_f
