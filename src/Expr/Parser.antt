-- ===== src/Expr/Parser.antt =====
-- The parts of the recursive-descent parser and type checker of expr.ts (class Parser). Its state is the tokens
-- left and the count of nodes; a thrown ParseFailure is an error. Each method takes fuel, which
-- `Soundness` shows to suffice.
use agentsimjs.Prelude.{
  ℕ, suc, ◌+◌, Bool, true, false, ◌||◌, List, [], ◌∷◌, Option, none, some, Result, ok, err, ltb,
  if◌then◌else◌,
}
use agentsimjs.Expr.Syntax.{
  Text, codes, text_eq, Numbers, ExprError, ErrorCode, syntax, too_many_nodes, unknown_name,
  type_error, unknown_enum_value, max_nodes, Ty, number, boolean, enum, Context, lookup, BinOp,
  lt_op, le_op, gt_op, ge_op, eq_op, ne_op, plus, minus, times, divide, Node, const, slot, bin,
  binary, close_paren, Token, num, str, id, op, end,
}

pub record State (F : Type 0) : Type 0 where
  pub tokens : List (Token F)
  pub nodes : ℕ

pub record Typed (F : Type 0) : Type 0 where
  pub node : Node F
  pub ty : Ty
  pub str_literal : Option Text
  pub pos : ℕ

abbrev pub M : Type 0 → Type 0 → Type 0
M F A = State F → Result ExprError (A × State F)

infixl 5 ◌>>=◌ ◌>>◌
abbrev pub ◌>>=◌ : {F A B : Type 0} → M F A → (A → M F B) → M F B
◌>>=◌ m f s = elim (m s) [ ok (a, s') ↦ f a s' | err e ↦ err e ]

abbrev pub ◌>>◌ : {F B : Type 0} → M F (Unit {0}) → M F B → M F B
m >> k = m >>= λ _. k

abbrev pub pure : {F A : Type 0} → A → M F A
pure a s = ok (a, s)

abbrev pub throw_at : {F A : Type 0} → ErrorCode → ℕ → M F A
throw_at c at s = err (record { error_code = c; position = at })

-- and, or, not, true, false
unfoldable pub is_keyword : Text → Bool
unfolding text_eq
is_keyword t =
    text_eq t (codes "and")
    || text_eq t (codes "or")
    || text_eq t (codes "not")
    || text_eq t (codes "true")
    || text_eq t (codes "false")

module _ {F : Type 0} where
  unfoldable pub token_pos : Token F → ℕ
  token_pos (num _ p) = p
  token_pos (str _ p) = p
  token_pos (id _ p) = p
  token_pos (op _ p) = p
  token_pos (end p) = p

  -- `this.toks[this.p] ?? { t: "end", pos: 0 }`
  unfoldable pub peek : State F → Token F
  peek s = elim s.tokens [ [] ↦ end 0 | t ∷ _ ↦ t ]

  unfoldable pub rest_of : List (Token F) → List (Token F)
  rest_of [] = []
  rest_of (t ∷ ts) = ts

  -- `this.p++`
  unfoldable pub advance : M F (Unit {0})
  unfolding rest_of
  advance s = ok (tt, record s { tokens = rest_of s.tokens })

  -- `isOp` for the keywords, which are name tokens
  unfoldable pub is_word : Text → Token F → Bool
  unfolding text_eq
  is_word w (id v _) = text_eq v w
  is_word w _ = false

  unfoldable pub binary_of : Token F → Option BinOp
  binary_of (op (binary b) _) = some b
  binary_of _ = none

  unfoldable pub count : ℕ → M F (Unit {0})
  count at s =
      if ltb max_nodes (s.nodes + 1)
      then err (record { error_code = too_many_nodes; position = at })
      else ok (tt, record s { nodes = s.nodes + 1 })

  need_boolean_ty : Ty → ℕ → M F (Unit {0})
  need_boolean_ty boolean at = pure tt
  need_boolean_ty number at = throw_at type_error at
  need_boolean_ty (enum vs) at = throw_at type_error at

  unfoldable pub need_boolean : Typed F → M F (Unit {0})
  unfolding need_boolean_ty
  need_boolean e = need_boolean_ty e.ty e.pos

  need_number_ty : Ty → ℕ → M F (Unit {0})
  need_number_ty number at = pure tt
  need_number_ty boolean at = throw_at type_error at
  need_number_ty (enum vs) at = throw_at type_error at

  unfoldable pub need_number : Typed F → M F (Unit {0})
  unfolding need_number_ty
  need_number e = need_number_ty e.ty e.pos

  abbrev pub typed : Node F → Ty → ℕ → Typed F
  typed n t at = record { node = n; ty = t; str_literal = none; pos = at }

  unfoldable pub make_binary : BinOp → Ty → ℕ → Typed F → Typed F → Typed F
  make_binary o t at l r = typed (bin o l.node r.node) t at

unfoldable pub is_comparison : BinOp → Bool
is_comparison lt_op = true
is_comparison le_op = true
is_comparison gt_op = true
is_comparison ge_op = true
is_comparison eq_op = true
is_comparison ne_op = true
is_comparison _ = false

unfoldable pub is_equality : BinOp → Bool
is_equality eq_op = true
is_equality ne_op = true
is_equality _ = false

unfoldable pub is_sum : BinOp → Bool
is_sum plus = true
is_sum minus = true
is_sum _ = false

unfoldable pub is_product : BinOp → Bool
is_product times = true
is_product divide = true
is_product _ = false

unfoldable pub index_from : ℕ → List Text → Text → Option ℕ
unfolding text_eq
index_from i [] t = none
index_from i (x ∷ xs) t = let rest = index_from (suc i) xs t in if text_eq x t then some i else rest

module _ (N : Numbers) where
  open N use {F, nan, zero_f, one_f, of_index}

  -- An enum on one side, with its values: the other side must be the text of one of them.
  unfoldable pub enum_equality : BinOp → List Text → Typed F → Typed F → ℕ → M F (Node F)
  unfolding index_from
  enum_equality o values side other at = elim other.str_literal [
    | none ↦ throw_at type_error at
    | some t ↦ elim (index_from 0 values t) [
      | none ↦ throw_at unknown_enum_value other.pos
      | some i ↦ pure (bin o side.node (const (of_index i)))
    ]
  ]

  pub no_literals : Option Text → Option Text → Bool
  no_literals none none = true
  no_literals _ _ = false

  plain_equality : BinOp → Ty → Ty → Typed F → Typed F → ℕ → M F (Node F)
  unfolding no_literals
  plain_equality o (enum vs) t l r at = enum_equality o vs l r at
  plain_equality o number (enum vs) l r at = enum_equality o vs r l at
  plain_equality o boolean (enum vs) l r at = enum_equality o vs r l at
  plain_equality o number number l r at =
      if no_literals l.str_literal r.str_literal
      then pure (bin o l.node r.node)
      else throw_at type_error at
  plain_equality o boolean boolean l r at =
      if no_literals l.str_literal r.str_literal
      then pure (bin o l.node r.node)
      else throw_at type_error at
  plain_equality o number boolean l r at = throw_at type_error at
  plain_equality o boolean number l r at = throw_at type_error at

  unfoldable pub equality : BinOp → Typed F → Typed F → ℕ → M F (Node F)
  unfolding enum_equality plain_equality
  equality o l r at = plain_equality o l.ty r.ty l r at

  compared : Bool → BinOp → ℕ → Typed F → Typed F → M F (Typed F)
  unfolding equality
  compared true o at l r = do n ← equality o l r at; pure (typed n boolean at)
  compared false o at l r = do need_number l; need_number r; pure (make_binary o boolean at l r)

  -- The tail of `cmp`, after both operands.
  unfoldable pub compare_with : BinOp → ℕ → Typed F → Typed F → M F (Typed F)
  unfolding compared
  compare_with o at l r = do count at; compared (is_equality o) o at l r

  -- A name that is no keyword: its type by the context, and its slot.
  unfoldable pub name_atom : Context → (Text → Option ℕ) → Text → ℕ → M F (Typed F)
  unfolding is_keyword lookup
  name_atom ctx slots v at =
      if text_eq v (codes "true")
      then pure (typed (const one_f) boolean at)
      else if text_eq v (codes "false")
      then pure (typed (const zero_f) boolean at)
      else if is_keyword v
      then throw_at syntax at
      else elim (lookup ctx v) [
        | none ↦ throw_at unknown_name at
        | some t ↦ elim (slots v) [
          | none ↦ throw_at unknown_name at
          | some i ↦ pure (typed (slot i) t at)
        ]
      ]

  unfoldable pub expect_close : Typed F → M F (Typed F)
  expect_close e s = elim (peek s) [
    | op close_paren _ ↦ ok (e, record s { tokens = rest_of s.tokens })
    | t ↦ err (record { error_code = syntax; position = token_pos t })
  ]

  unfoldable pub expect_end : Typed F → M F (Typed F)
  unfolding peek token_pos
  expect_end e s = elim (peek s) [
    | end _ ↦ ok (e, s)
    | t ↦ err (record { error_code = syntax; position = token_pos t })
  ]
