-- ===== src/Expr/Soundness/Compiled.antt =====
-- What `compileExpr` promises.
use agentsimjs.Prelude.{
  ℕ, ◌≤◌, ◌≡◌, refl, true, List, Option, none, some, Result, ok, err, length, ltb, arith, if_cases,
}
use agentsimjs.Expr.Syntax.{
  Text, Numbers, ExprError, max_source_length, max_nodes, max_depth, Ty, number, boolean, enum,
  Context, Token, num, str, id, op, end, ast_depth,
}
use agentsimjs.Expr.Lexer.{tokenize}
use agentsimjs.Expr.Parser.{State, Typed, peek, index_from, expect_end}
use agentsimjs.Expr.Grammar.{or_, parse}
use agentsimjs.Expr.Compile.{
  CompiledExpr, collect_names, has_result, checked, parser_fuel, compile_tokens, compile_expr,
}
use agentsimjs.Expr.Typing.{HasType, size}
use agentsimjs.Expr.Soundness.{Sat, Sat-bind, IsSource, WellTyped}
use agentsimjs.Expr.Soundness.Methods.{methods}
use agentsimjs.Expr.Soundness.Tokens.{tokenize-IsSource}

module _ (N : Numbers) (ctx : Context) where
  open N use {F}

  -- Slots are the positions of the names.
  abbrev pub slots_of : List Text → Text → Option ℕ
  slots_of = index_from 0

  -- A compiled expression is of the type asked for, by the type rules over its own names, and within
  -- the limits.
  pub record IsCompiled (source : Text) (expect : Ty) (c : CompiledExpr F) : Type 0 where
    pub same_source : c.source ≡ source
    pub short : length source ≤ max_source_length
    pub small : size c.root ≤ max_nodes
    pub shallow : ast_depth c.root ≤ max_depth
    pub expected : c.result_type ≡ expect
    pub well_typed : HasType N ctx (slots_of c.variables) c.root expect

  abbrev pub Checked : Text → Ty → Result ExprError (CompiledExpr F) → Type 0
  Checked source expect (ok c) = IsCompiled source expect c
  Checked source expect (err e) = IsSource e

  parse-Sat :
      (slots : Text → Option ℕ) (ts : List (Token F))
      → Sat
          (λ t _. WellTyped N ctx slots t × (size t.node ≤ max_nodes))
          (parse N ctx slots (parser_fuel N ts) (record { tokens = ts; nodes = 0 }))
  unfolding parse expect_end
  parse-Sat slots ts =
      let m = methods N ctx slots (parser_fuel N ts) in
      Sat-bind Post (or_ N ctx slots (parser_fuel N ts) (record { tokens = ts; nodes = 0 })) _
        (m.or_ok (record { tokens = ts; nodes = 0 }) (omega arith) (omega arith))
        (λ t s g.
          ends t s (peek s) refl g.well_typed
            (let c = g.counted in let n = g.few_nodes in omega arith))
    where
      Post : Typed F → State F → Type 0
      Post t _ = WellTyped N ctx slots t × (size t.node ≤ max_nodes)

      ends :
          (t : Typed F) (s : State F) (next : Token F)
          → peek s ≡ next
          → WellTyped N ctx slots t
          → size t.node ≤ max_nodes
          → Sat Post (expect_end N t s)
      ends t s (end at) e w n = rw (e, expect_end) (w, n)
      ends t s (num v at) e w n = rw (e, expect_end) (λ e. cc)
      ends t s (str v at) e w n = rw (e, expect_end) (λ e. cc)
      ends t s (id v at) e w n = rw (e, expect_end) (λ e. cc)
      ends t s (op o at) e w n = rw (e, expect_end) (λ e. cc)

  result-expected : (t : Typed F) (expect : Ty) → has_result t expect ≡ true → t.ty ≡ expect
  unfolding has_result
  result-expected t expect e = go t.str_literal t.ty expect e
    where
      go :
          (l : Option Text) (a b : Ty)
          → has_result (record t { ty = a; str_literal = l }) b ≡ true
          → a ≡ b
      go none number number e = refl
      go none boolean boolean e = refl
      go none number boolean e = cc
      go none number (enum vs) e = cc
      go none boolean number e = cc
      go none boolean (enum vs) e = cc
      go none (enum us) b e = cc
      go (some v) a b e = cc

  checked-Checked :
      (source : Text) (names : List Text) (expect : Ty) (t : Typed F)
      → length source ≤ max_source_length
      → WellTyped N ctx (slots_of names) t
      → size t.node ≤ max_nodes
      → Checked source expect (checked N source names expect t)
  unfolding checked
  checked-Checked source names expect t short w n =
      if_cases (Checked source expect) (ltb max_depth (ast_depth t.node)) (λ _. λ e. cc)
        (λ shallow.
          if_cases (Checked source expect) (has_result t expect)
            (λ fits. record {
              same_source = refl;
              short = short;
              small = n;
              shallow = ground arith;
              expected = result-expected t expect fits;
              well_typed = rw (result-expected t expect fits) at w;
            })
            (λ _. λ e. cc))

  compile_tokens-Checked :
      (source : Text) (expect : Ty) (ts : List (Token F))
      → length source ≤ max_source_length
      → Checked source expect (compile_tokens N source ctx expect ts)
  unfolding compile_tokens
  compile_tokens-Checked source expect ts short =
      go (parse N ctx (slots_of names) (parser_fuel N ts) (record { tokens = ts; nodes = 0 }))
        (parse-Sat (slots_of names) ts)
    where
      names : List Text
      names = collect_names ctx ts

      go :
          (r : Result ExprError (Typed F × State F))
          → Sat (λ t _. WellTyped N ctx (slots_of names) t × (size t.node ≤ max_nodes)) r
          → Checked source expect
              (elim r [ ok (e, _) ↦ checked N source names expect e | err e ↦ err e ])
      go (ok (t, s)) h = checked-Checked source names expect t short h.0 h.1
      go (err e) h = h

  -- Compiling any text ends, either with an error of the source or with an expression of the type
  -- asked for that is well-typed over its own variables, with at most 64 nodes and depth 16.
  pub compile_expr-Checked :
      (source : Text) (expect : Ty) → Checked source expect (compile_expr N source ctx expect)
  unfolding compile_expr
  compile_expr-Checked source expect =
      if_cases (Checked source expect) (ltb max_source_length (length source)) (λ _. λ e. cc)
        (λ short. go (tokenize N source) refl (ground arith))
    where
      go :
          (r : Result ExprError (List (Token F)))
          → tokenize N source ≡ r
          → length source ≤ max_source_length
          → Checked source expect
              (elim r [ ok ts ↦ compile_tokens N source ctx expect ts | err e ↦ err e ])
      go (ok ts) e short = compile_tokens-Checked source expect ts short
      go (err e) h short = tokenize-IsSource N source e h
