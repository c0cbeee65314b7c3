-- ===== src/Expr/Grammar.antt =====
-- The methods of the parser of expr.ts, one per level of the grammar, in one mutual block: each loop
-- of a method is a function of its own.
use agentsimjs.Prelude.{ℕ, zero, suc, true, false, Option, none, some, ok}
use agentsimjs.Expr.Syntax.{
  Text, codes, Numbers, syntax, out_of_fuel, number, boolean, Context, or_op, and_op, minus, const,
  neg, not_node, open_paren, num, str, id, op,
}
use agentsimjs.Expr.Parser.{
  Typed, M, pure, throw_at, ◌>>=◌, ◌>>◌, token_pos, peek, advance, is_word, binary_of, count,
  need_boolean, need_number, typed, make_binary, is_comparison, is_sum, is_product, compare_with,
  name_atom, expect_close, expect_end,
}

module _ (N : Numbers) where
  open N use {F, nan}

  module _ (ctx : Context) (slots : Text → Option ℕ) where
    unfoldable mutual
      pub or_ : ℕ → M F (Typed F)
      or_ zero s = throw_at out_of_fuel 0 s
      or_ (suc f) s = (and_ f >>= or_loop f) s

      pub or_loop : ℕ → Typed F → M F (Typed F)
      or_loop zero l s = throw_at out_of_fuel 0 s
      or_loop (suc f) l s = elim (is_word (codes "or") (peek s)) [
        | false ↦ ok (l, s)
        | true ↦
            (do
              advance
              r ← and_ f
              need_boolean l
              need_boolean r
              count (token_pos (peek s))
              or_loop f (make_binary or_op boolean (token_pos (peek s)) l r))
              s
      ]

      pub and_ : ℕ → M F (Typed F)
      and_ zero s = throw_at out_of_fuel 0 s
      and_ (suc f) s = (not_ f >>= and_loop f) s

      pub and_loop : ℕ → Typed F → M F (Typed F)
      and_loop zero l s = throw_at out_of_fuel 0 s
      and_loop (suc f) l s = elim (is_word (codes "and") (peek s)) [
        | false ↦ ok (l, s)
        | true ↦
            (do
              advance
              r ← not_ f
              need_boolean l
              need_boolean r
              count (token_pos (peek s))
              and_loop f (make_binary and_op boolean (token_pos (peek s)) l r))
              s
      ]

      pub not_ : ℕ → M F (Typed F)
      not_ zero s = throw_at out_of_fuel 0 s
      not_ (suc f) s = elim (is_word (codes "not") (peek s)) [
        | false ↦ cmp f s
        | true ↦
            (do
              advance
              e ← not_ f
              need_boolean e
              count (token_pos (peek s))
              pure (typed (not_node e.node) boolean (token_pos (peek s))))
              s
      ]

      pub cmp : ℕ → M F (Typed F)
      cmp zero s = throw_at out_of_fuel 0 s
      cmp (suc f) s = (sum_ f >>= cmp_rest f) s

      pub cmp_rest : ℕ → Typed F → M F (Typed F)
      cmp_rest zero l s = throw_at out_of_fuel 0 s
      cmp_rest (suc f) l s = elim (binary_of (peek s)) [
        | none ↦ ok (l, s)
        | some o ↦ elim (is_comparison o) [
          | false ↦ ok (l, s)
          | true ↦ (do advance; r ← sum_ f; compare_with N o (token_pos (peek s)) l r) s
        ]
      ]

      pub sum_ : ℕ → M F (Typed F)
      sum_ zero s = throw_at out_of_fuel 0 s
      sum_ (suc f) s = (prod f >>= sum_loop f) s

      pub sum_loop : ℕ → Typed F → M F (Typed F)
      sum_loop zero l s = throw_at out_of_fuel 0 s
      sum_loop (suc f) l s = elim (binary_of (peek s)) [
        | none ↦ ok (l, s)
        | some o ↦ elim (is_sum o) [
          | false ↦ ok (l, s)
          | true ↦
              (do
                advance
                r ← prod f
                need_number l
                need_number r
                count (token_pos (peek s))
                sum_loop f (make_binary o number (token_pos (peek s)) l r))
                s
        ]
      ]

      pub prod : ℕ → M F (Typed F)
      prod zero s = throw_at out_of_fuel 0 s
      prod (suc f) s = (unary f >>= prod_loop f) s

      pub prod_loop : ℕ → Typed F → M F (Typed F)
      prod_loop zero l s = throw_at out_of_fuel 0 s
      prod_loop (suc f) l s = elim (binary_of (peek s)) [
        | none ↦ ok (l, s)
        | some o ↦ elim (is_product o) [
          | false ↦ ok (l, s)
          | true ↦
              (do
                advance
                r ← unary f
                need_number l
                need_number r
                count (token_pos (peek s))
                prod_loop f (make_binary o number (token_pos (peek s)) l r))
                s
        ]
      ]

      pub unary : ℕ → M F (Typed F)
      unary zero s = throw_at out_of_fuel 0 s
      unary (suc f) s = elim (binary_of (peek s)) [
        | some minus ↦
            (do
              advance
              e ← unary f
              need_number e
              count (token_pos (peek s))
              pure (typed (neg e.node) number (token_pos (peek s))))
              s
        | _ ↦ atom f s
      ]

      pub atom : ℕ → M F (Typed F)
      atom zero s = throw_at out_of_fuel 0 s
      atom (suc f) s = elim (peek s) [
        | num v at ↦ (do count at; advance; pure (typed (const v) number at)) s
        | str v at ↦
            (do
              count at
              advance
              pure (record { node = const nan; ty = number; str_literal = some v; pos = at }))
              s
        | id v at ↦ (do count at; advance; name_atom N ctx slots v at) s
        | op open_paren at ↦ (do count at; advance; e ← or_ f; expect_close N e) s
        | t ↦ (do count (token_pos t); throw_at syntax (token_pos t)) s
      ]

    -- `parse`: an expression, then the end.
    unfoldable pub parse : ℕ → M F (Typed F)
    parse fuel = or_ fuel >>= expect_end N
