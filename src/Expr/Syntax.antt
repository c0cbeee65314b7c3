-- ===== src/Expr/Syntax.antt =====
-- Types, tokens and compiled nodes of expr.ts, its limits and its errors. A text is the list of its
-- code units. Floating-point numbers are the interface `Numbers`; the laws that the proofs use are
-- those of IEEE 754 for NaN, 0 and 1.
use agentsimjs.Prelude.{
  ℕ, ◌+◌, ◌≡◌, Bool, true, false, ◌&&◌, List, [], ◌∷◌, Option, none, some, ◌==◌, ltb, max,
  if◌then◌else◌,
}
pub use agentsimjs.Prelude.{codes}

abbrev pub Text : Type 0
Text = List ℕ

unfoldable pub text_eq : Text → Text → Bool
text_eq [] [] = true
text_eq (a ∷ s) (b ∷ t) = a == b && text_eq s t
text_eq _ _ = false

-- JavaScript's order of strings, by code units.
unfoldable pub text_lt : Text → Text → Bool
text_lt [] [] = false
text_lt [] (b ∷ t) = true
text_lt (a ∷ s) [] = false
text_lt (a ∷ s) (b ∷ t) = let rest = text_lt s t in if a == b then rest else ltb a b

pub record Numbers : Type 1 where
  pub F : Type 0
  pub nan : F
  pub zero_f : F
  pub one_f : F
  pub of_index : ℕ → F
  -- `Number(text)` of a numeric literal
  pub parse_number : Text → F
  pub is_nan : F → Bool
  pub is_finite : F → Bool
  -- `Math.abs(v) <= maxAbsNumber`
  pub in_range : F → Bool
  pub neg_f : F → F
  pub add_f : F → F → F
  pub sub_f : F → F → F
  pub mul_f : F → F → F
  pub div_f : F → F → F
  pub lt_f : F → F → Bool
  pub le_f : F → F → Bool
  pub eq_f : F → F → Bool
  pub nan_is_nan : is_nan nan ≡ true
  pub one_eq_one : eq_f one_f one_f ≡ true
  pub zero_ne_one : eq_f zero_f one_f ≡ false
  pub nan_ne_one : (v : F) → is_nan v ≡ true → eq_f v one_f ≡ false

-- EXPR_LIMITS, less the bound on numbers, which is `in_range`.
abbrev pub max_source_length : ℕ
max_source_length = 512

abbrev pub max_nodes : ℕ
max_nodes = 64

abbrev pub max_depth : ℕ
max_depth = 16

abbrev pub max_identifier_length : ℕ
max_identifier_length = 64

abbrev pub max_string_length : ℕ
max_string_length = 64

-- `out_of_fuel` is no error of the source: the parser's model never ends with it (`Soundness`).
pub data ErrorCode : Type 0 where
  too_long bad_char syntax too_many_nodes too_deep unknown_name type_error number_out_of_range :
      ErrorCode
  identifier_too_long string_too_long unknown_enum_value out_of_fuel : ErrorCode

pub record ExprError : Type 0 where
  pub error_code : ErrorCode
  pub position : ℕ

-- A variable's type; also the type of a checked expression.
pub data Ty : Type 0 where
  number boolean : Ty
  enum : List Text → Ty

abbrev pub Context : Type 0
Context = List (Text × Ty)

unfoldable pub lookup : Context → Text → Option Ty
unfolding text_eq
lookup [] n = none
lookup ((m, t) ∷ ctx) n = if text_eq m n then some t else lookup ctx n

pub data BinOp : Type 0 where
  or_op and_op lt_op le_op gt_op ge_op eq_op ne_op plus minus times divide : BinOp

pub data Node (F : Type 0) : Type 0 where
  const : F → Node F
  slot : ℕ → Node F
  neg : Node F → Node F
  not_node : Node F → Node F
  bin : BinOp → Node F → Node F → Node F

-- The symbols of operator tokens.
pub data Sym : Type 0 where
  binary : BinOp → Sym
  open_paren close_paren : Sym

pub data Token (F : Type 0) : Type 0 where
  num : F → ℕ → Token F
  str : Text → ℕ → Token F
  id : Text → ℕ → Token F
  op : Sym → ℕ → Token F
  end : ℕ → Token F

-- astDepth
unfoldable pub ast_depth : {F : Type 0} → Node F → ℕ
ast_depth (const v) = 1
ast_depth (slot i) = 1
ast_depth (neg e) = 1 + ast_depth e
ast_depth (not_node e) = 1 + ast_depth e
ast_depth (bin o l r) = 1 + max (ast_depth l) (ast_depth r)
