-- ===== src/Expr/Soundness/Operators.antt =====
-- The levels of binary operators, from the levels below them.
use agentsimjs.Prelude.{
  ℕ, suc, ◌+◌, ◌≤◌, ◌<◌, ◌≡◌, inl, inr, true, Option, length, arith, Bool-cases, Option-cases,
}
use agentsimjs.Expr.Syntax.{
  Text, codes, Numbers, max_nodes, number, boolean, Context, BinOp, or_op, and_op, lt_op, le_op,
  gt_op, ge_op, eq_op, ne_op, plus, minus, times, divide,
}
use agentsimjs.Expr.Parser.{
  State, Typed, M, peek, is_word, binary_of, is_sum, is_product, need_boolean, need_number,
  token_pos, ◌>>=◌,
}
use agentsimjs.Expr.Grammar.{
  or_, or_loop, and_, and_loop, not_, cmp, cmp_rest, sum_, sum_loop, prod, prod_loop, unary,
}
use agentsimjs.Expr.Typing.{
  Operates, or_boolean, and_boolean, plus_number, minus_number, times_number, divide_number, size,
}
use agentsimjs.Expr.Soundness.{Sat-bind, Sat-mono, WellTyped, Good, Parses, Continues}
use agentsimjs.Expr.Soundness.Steps.{
  word-consumes, binary-consumes, need_boolean-Asks, need_number-Asks, round,
}

module _ (N : Numbers) (ctx : Context) (slots : Text → Option ℕ) where
  open N use {F}

  -- A level that is an operand of the level below and then a loop.
  level :
      (m : M F (Typed F)) (loop : Typed F → M F (Typed F)) (below above fuel : ℕ)
      → Parses N ctx slots below m fuel
      → Continues N ctx slots loop fuel
      → below < above
      → 2 ≤ above
      → Parses N ctx slots above (m >>= loop) (suc fuel)
  level m loop below above fuel parses continues lower high s few enough =
      Sat-bind Post (m s) _ (parses s few (omega arith)) (λ l s1 g.
        Sat-mono Post _
          (continues s.nodes l s1 g.well_typed g.counted g.few_nodes
            (let c = g.consumed in omega arith))
          (λ q s2 h. record {
            well_typed = h.well_typed;
            counted = h.counted;
            few_nodes = h.few_nodes;
            consumed = let c = g.consumed in let d = h.consumed in omega arith;
          }))
    where
      Post : Typed F → State F → Type 0
      Post = Good N ctx slots s.nodes (length s.tokens)

  -- A loop that ends where it stands.
  ends :
      (base : ℕ) (l : Typed F) (s : State F)
      → WellTyped N ctx slots l
      → size l.node + base ≤ s.nodes
      → s.nodes ≤ max_nodes
      → Good N ctx slots base (suc (length s.tokens)) l s
  ends base l s t c n = record {
    well_typed = t;
    counted = c;
    few_nodes = n;
    consumed = omega arith;
  }

  pub or_-Parses :
      (f : ℕ)
      → Parses N ctx slots 7 (and_ N ctx slots f) f
      → Continues N ctx slots (or_loop N ctx slots f) f
      → Parses N ctx slots 8 (or_ N ctx slots (suc f)) (suc f)
  unfolding or_
  or_-Parses f p c = level _ _ 7 8 f p c (omega arith) (omega arith)

  pub or_loop-Continues :
      (f : ℕ)
      → Parses N ctx slots 7 (and_ N ctx slots f) f
      → Continues N ctx slots (or_loop N ctx slots f) f
      → Continues N ctx slots (or_loop N ctx slots (suc f)) (suc f)
  unfolding or_loop
  or_loop-Continues f p c base l s t sz few enough =
      elim (Bool-cases (is_word (codes "or") (peek s))) [
        | inl e ↦
            rw (e, or_loop)
              (round N ctx slots or_op boolean boolean need_boolean _ _ 7 f (token_pos (peek s))
                base l s or_boolean need_boolean-Asks p c t sz few enough (omega arith)
                (word-consumes (codes "or") s e))
        | inr e ↦ rw (e, or_loop) (ends base l s t sz few)
      ]

  pub and_-Parses :
      (f : ℕ)
      → Parses N ctx slots 6 (not_ N ctx slots f) f
      → Continues N ctx slots (and_loop N ctx slots f) f
      → Parses N ctx slots 7 (and_ N ctx slots (suc f)) (suc f)
  unfolding and_
  and_-Parses f p c = level _ _ 6 7 f p c (omega arith) (omega arith)

  pub and_loop-Continues :
      (f : ℕ)
      → Parses N ctx slots 6 (not_ N ctx slots f) f
      → Continues N ctx slots (and_loop N ctx slots f) f
      → Continues N ctx slots (and_loop N ctx slots (suc f)) (suc f)
  unfolding and_loop
  and_loop-Continues f p c base l s t sz few enough =
      elim (Bool-cases (is_word (codes "and") (peek s))) [
        | inl e ↦
            rw (e, and_loop)
              (round N ctx slots and_op boolean boolean need_boolean _ _ 6 f (token_pos (peek s))
                base l s and_boolean need_boolean-Asks p c t sz few enough (omega arith)
                (word-consumes (codes "and") s e))
        | inr e ↦ rw (e, and_loop) (ends base l s t sz few)
      ]

  sum-Operates : (o : BinOp) → is_sum o ≡ true → Operates o number number
  unfolding is_sum
  sum-Operates plus e = plus_number
  sum-Operates minus e = minus_number
  sum-Operates times e = cc
  sum-Operates divide e = cc
  sum-Operates lt_op e = cc
  sum-Operates le_op e = cc
  sum-Operates gt_op e = cc
  sum-Operates ge_op e = cc
  sum-Operates eq_op e = cc
  sum-Operates ne_op e = cc
  sum-Operates or_op e = cc
  sum-Operates and_op e = cc

  product-Operates : (o : BinOp) → is_product o ≡ true → Operates o number number
  unfolding is_product
  product-Operates times e = times_number
  product-Operates divide e = divide_number
  product-Operates plus e = cc
  product-Operates minus e = cc
  product-Operates lt_op e = cc
  product-Operates le_op e = cc
  product-Operates gt_op e = cc
  product-Operates ge_op e = cc
  product-Operates eq_op e = cc
  product-Operates ne_op e = cc
  product-Operates or_op e = cc
  product-Operates and_op e = cc

  pub sum_-Parses :
      (f : ℕ)
      → Parses N ctx slots 3 (prod N ctx slots f) f
      → Continues N ctx slots (sum_loop N ctx slots f) f
      → Parses N ctx slots 4 (sum_ N ctx slots (suc f)) (suc f)
  unfolding sum_
  sum_-Parses f p c = level _ _ 3 4 f p c (omega arith) (omega arith)

  pub sum_loop-Continues :
      (f : ℕ)
      → Parses N ctx slots 3 (prod N ctx slots f) f
      → Continues N ctx slots (sum_loop N ctx slots f) f
      → Continues N ctx slots (sum_loop N ctx slots (suc f)) (suc f)
  unfolding sum_loop
  sum_loop-Continues f p c base l s t sz few enough = elim (Option-cases (binary_of (peek s))) [
    | inl e ↦ rw (e, sum_loop) (ends base l s t sz few)
    | inr (o, e) ↦ elim (Bool-cases (is_sum o)) [
      | inl e' ↦
          rw (e, e', sum_loop)
            (round N ctx slots o number number need_number _ _ 3 f (token_pos (peek s)) base l s
              (sum-Operates o e') need_number-Asks p c t sz few enough (omega arith)
              (binary-consumes o s e))
      | inr e' ↦ rw (e, e', sum_loop) (ends base l s t sz few)
    ]
  ]

  pub prod-Parses :
      (f : ℕ)
      → Parses N ctx slots 2 (unary N ctx slots f) f
      → Continues N ctx slots (prod_loop N ctx slots f) f
      → Parses N ctx slots 3 (prod N ctx slots (suc f)) (suc f)
  unfolding prod
  prod-Parses f p c = level _ _ 2 3 f p c (omega arith) (omega arith)

  pub prod_loop-Continues :
      (f : ℕ)
      → Parses N ctx slots 2 (unary N ctx slots f) f
      → Continues N ctx slots (prod_loop N ctx slots f) f
      → Continues N ctx slots (prod_loop N ctx slots (suc f)) (suc f)
  unfolding prod_loop
  prod_loop-Continues f p c base l s t sz few enough = elim (Option-cases (binary_of (peek s))) [
    | inl e ↦ rw (e, prod_loop) (ends base l s t sz few)
    | inr (o, e) ↦ elim (Bool-cases (is_product o)) [
      | inl e' ↦
          rw (e, e', prod_loop)
            (round N ctx slots o number number need_number _ _ 2 f (token_pos (peek s)) base l s
              (product-Operates o e') need_number-Asks p c t sz few enough (omega arith)
              (binary-consumes o s e))
      | inr e' ↦ rw (e, e', prod_loop) (ends base l s t sz few)
    ]
  ]

  pub cmp-Parses :
      (f : ℕ)
      → Parses N ctx slots 4 (sum_ N ctx slots f) f
      → Continues N ctx slots (cmp_rest N ctx slots f) f
      → Parses N ctx slots 5 (cmp N ctx slots (suc f)) (suc f)
  unfolding cmp
  cmp-Parses f p c = level _ _ 4 5 f p c (omega arith) (omega arith)
