-- ===== src/Expr/Compile.antt =====
-- `compileExpr` of expr.ts: names to slots, the parser, and the last checks.
use agentsimjs.Prelude.{
  ℕ, ◌+◌, ◌*◌, Bool, true, false, not, ◌&&◌, List, [], ◌∷◌, Option, none, some, Result, ok, err,
  ltb, length, if◌then◌else◌,
}
use agentsimjs.Expr.Syntax.{
  Text, text_eq, text_lt, Numbers, ExprError, too_long, too_deep, type_error, max_source_length,
  max_depth, Ty, number, boolean, enum, Context, lookup, Node, Token, id, ast_depth,
}
use agentsimjs.Expr.Lexer.{fail, tokenize}
use agentsimjs.Expr.Parser.{Typed, is_keyword, index_from}
use agentsimjs.Expr.Grammar.{parse}

pub record CompiledExpr (F : Type 0) : Type 0 where
  pub source : Text
  pub variables : List Text
  pub result_type : Ty
  pub root : Node F

-- `names.add(t.v)` and the final `sort()` in one: the sorted names, each once.
pub insert : Text → List Text → List Text
unfolding text_eq text_lt
insert v [] = v ∷ []
insert v (x ∷ xs) =
    let later = insert v xs in
    if text_eq v x then x ∷ xs else if text_lt v x then v ∷ x ∷ xs else x ∷ later

is_some : {A : Type 0} → Option A → Bool
is_some none = false
is_some (some a) = true

pub collect_names : {F : Type 0} → Context → List (Token F) → List Text
unfolding is_keyword lookup insert is_some
collect_names ctx [] = []
collect_names ctx (id v _ ∷ ts) =
    let names = collect_names ctx ts in
    if not (is_keyword v) && is_some (lookup ctx v) then insert v names else names
collect_names ctx (t ∷ ts) = collect_names ctx ts

-- A literal is no result, whatever its type.
unfoldable pub has_result : {F : Type 0} → Typed F → Ty → Bool
has_result e expect = elim e.str_literal [
  | some _ ↦ false
  | none ↦ elim e.ty [
    | number ↦ elim expect [ number ↦ true | _ ↦ false ]
    | boolean ↦ elim expect [ boolean ↦ true | _ ↦ false ]
    | enum _ ↦ false
  ]
]

module _ (N : Numbers) where
  open N use {F}

  unfoldable pub checked : Text → List Text → Ty → Typed F → Result ExprError (CompiledExpr F)
  unfolding has_result ast_depth
  checked source names expect e =
      if ltb max_depth (ast_depth e.node)
      then fail too_deep 0
      else if has_result e expect
      then ok (record { source = source; variables = names; result_type = e.ty; root = e.node })
      else fail type_error e.pos

  -- The model's fuel for the parser, from the number of tokens.
  abbrev pub parser_fuel : List (Token F) → ℕ
  parser_fuel ts = 16 * length ts + 8

  unfoldable pub compile_tokens :
      Text → Context → Ty → List (Token F) → Result ExprError (CompiledExpr F)
  unfolding collect_names parse index_from checked
  compile_tokens source ctx expect ts =
      let names = collect_names ctx ts in
      elim (parse N ctx (index_from 0 names) (parser_fuel ts) (record { tokens = ts; nodes = 0 })) [
        | ok (e, _) ↦ checked source names expect e
        | err e ↦ err e
      ]

  unfoldable pub compile_expr : Text → Context → Ty → Result ExprError (CompiledExpr F)
  unfolding tokenize compile_tokens
  compile_expr source ctx expect =
      if ltb max_source_length (length source)
      then fail too_long max_source_length
      else elim (tokenize N source) [ ok ts ↦ compile_tokens source ctx expect ts | err e ↦ err e ]
