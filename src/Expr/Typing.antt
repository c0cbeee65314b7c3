-- ===== src/Expr/Typing.antt =====
-- The type rules of the expression language, on compiled nodes, and what they say of a value.
use agentsimjs.Prelude.{ℕ, ◌+◌, ◌≤◌, ◌≡◌, List, Option, some, arith}
use agentsimjs.Expr.Syntax.{
  Text, Numbers, Ty, number, boolean, enum, Context, lookup, BinOp, or_op, and_op, lt_op, le_op,
  gt_op, ge_op, eq_op, ne_op, plus, minus, times, divide, Node, const, slot, neg, not_node, bin,
}

-- The binary operators on two operands of one type, with the type of the result. Equality stands
-- apart, since it takes operands of any one type.
pub data Operates : BinOp → Ty → Ty → Type 0 where
  or_boolean : Operates or_op boolean boolean
  and_boolean : Operates and_op boolean boolean
  lt_number : Operates lt_op number boolean
  le_number : Operates le_op number boolean
  gt_number : Operates gt_op number boolean
  ge_number : Operates ge_op number boolean
  plus_number : Operates plus number number
  minus_number : Operates minus number number
  times_number : Operates times number number
  divide_number : Operates divide number number
  eq_any : {t : Ty} → Operates eq_op t boolean
  ne_any : {t : Ty} → Operates ne_op t boolean

module _ (N : Numbers) (ctx : Context) (slots : Text → Option ℕ) where
  open N use {F, zero_f, one_f, of_index}

  pub data HasType : Node F → Ty → Type 0 where
    const_number : (v : F) → HasType (const v) number
    const_true : HasType (const one_f) boolean
    const_false : HasType (const zero_f) boolean
    -- the position of a value of an enum
    const_enum : (i : ℕ) (vs : List Text) → HasType (const (of_index i)) (enum vs)
    slot_typed :
        (v : Text) (i : ℕ) (t : Ty) → lookup ctx v ≡ some t → slots v ≡ some i → HasType (slot i) t
    neg_typed : (e : Node F) → HasType e number → HasType (neg e) number
    not_typed : (e : Node F) → HasType e boolean → HasType (not_node e) boolean
    bin_typed :
        (o : BinOp) (a t : Ty) (l r : Node F)
        → Operates o a t
        → HasType l a
        → HasType r a
        → HasType (bin o l r) t

-- The number of nodes of a tree.
unfoldable pub size : {F : Type 0} → Node F → ℕ
size (const v) = 1
size (slot i) = 1
size (neg e) = size e + 1
size (not_node e) = size e + 1
size (bin o l r) = size l + size r + 1

pub size-positive : {F : Type 0} (e : Node F) → 1 ≤ size e
unfolding size
size-positive (const v) = omega arith
size-positive (slot i) = omega arith
size-positive (neg e) = omega arith
size-positive (not_node e) = omega arith
size-positive (bin o l r) = omega arith
