-- ===== src/Expr/Soundness/Comparisons.antt =====
-- A comparison of two operands, and the whole of the parser's soundness by induction on fuel.
use agentsimjs.Prelude.{
  ℕ, suc, ◌+◌, ◌≤◌, ◌<◌, ◌≡◌, inl, inr, refl, ap, true, false, List, Option, none, some, length,
  arith, if_cases, Bool-cases, Option-cases,
}
use agentsimjs.Expr.Syntax.{
  Text, Numbers, max_nodes, Ty, number, boolean, enum, Context, BinOp, or_op, and_op, lt_op, le_op,
  gt_op, ge_op, eq_op, ne_op, plus, minus, times, divide, Node, const, bin,
}
use agentsimjs.Expr.Parser.{
  State, Typed, M, peek, advance, binary_of, is_comparison, is_equality, need_number, make_binary,
  token_pos, count, index_from, no_literals, equality, compare_with, ◌>>=◌, ◌>>◌,
}
use agentsimjs.Expr.Grammar.{cmp_rest, sum_}
use agentsimjs.Expr.Typing.{
  HasType, const_enum, bin_typed, Operates, lt_number, le_number, gt_number, ge_number, eq_any,
  ne_any, size, size-positive,
}
use agentsimjs.Expr.Soundness.{Sat, Sat-bind, Sat-mono, WellTyped, Good, Parses, Continues}
use agentsimjs.Expr.Soundness.Steps.{after, binary-consumes, count-Sat, need_number-Asks}

equality-Operates : (o : BinOp) (t : Ty) → is_equality o ≡ true → Operates o t boolean
unfolding is_equality
equality-Operates eq_op t e = eq_any
equality-Operates ne_op t e = ne_any
equality-Operates plus t e = cc
equality-Operates minus t e = cc
equality-Operates times t e = cc
equality-Operates divide t e = cc
equality-Operates lt_op t e = cc
equality-Operates le_op t e = cc
equality-Operates gt_op t e = cc
equality-Operates ge_op t e = cc
equality-Operates or_op t e = cc
equality-Operates and_op t e = cc

comparison-Operates :
    (o : BinOp) → is_comparison o ≡ true → is_equality o ≡ false → Operates o number boolean
unfolding is_comparison is_equality
comparison-Operates lt_op e n = lt_number
comparison-Operates le_op e n = le_number
comparison-Operates gt_op e n = gt_number
comparison-Operates ge_op e n = ge_number
comparison-Operates eq_op e n = cc
comparison-Operates ne_op e n = cc
comparison-Operates plus e n = cc
comparison-Operates minus e n = cc
comparison-Operates times e n = cc
comparison-Operates divide e n = cc
comparison-Operates or_op e n = cc
comparison-Operates and_op e n = cc

module _ (N : Numbers) (ctx : Context) (slots : Text → Option ℕ) where
  open N use {F, of_index}

  -- The node of an equality, of no more nodes than both operands and itself.
  abbrev Compared : ℕ → State F → Node F → State F → Type 0
  Compared bound s n s' = HasType N ctx slots n boolean × (size n ≤ bound) × (s' ≡ s)

  against :
      (o : BinOp) (vs : List Text) (lit : Option Text) (ty : Ty) (side other : Typed F) (at : ℕ)
      (s : State F)
      → is_equality o ≡ true
      → HasType N ctx slots side.node (enum vs)
      → Sat (Compared (size side.node + size other.node + 1) s) (
          equality N o
            (record side { ty = enum vs })
            (record other { ty = ty; str_literal = lit })
            at
            s)
  unfolding equality size
  against o vs none ty side other at s e h = λ e. cc
  against o vs (some t) ty side other at s e h = elim (Option-cases (index_from 0 vs t)) [
    | inl missing ↦ rw (missing, Sat) (λ e. cc)
    | inr (i, there) ↦
        let one = size-positive other.node in
        rw (there, Sat)
          ((
            bin_typed o (enum vs) boolean side.node (const (of_index i))
                (equality-Operates o (enum vs) e) h (const_enum i vs),
            omega arith,
            refl,
          ))
  ]

  alike :
      (o : BinOp) (t : Ty) (l r : Typed F) (s : State F)
      → is_equality o ≡ true
      → HasType N ctx slots l.node t
      → HasType N ctx slots r.node t
      → Compared (size l.node + size r.node + 1) s (bin o l.node r.node) s
  unfolding size
  alike o t l r s e hl hr =
      (bin_typed o t boolean l.node r.node (equality-Operates o t e) hl hr, omega arith, refl)

  equality-Compared :
      (o : BinOp) (l r : Typed F) (at : ℕ) (s : State F)
      → is_equality o ≡ true
      → WellTyped N ctx slots l
      → WellTyped N ctx slots r
      → Sat (Compared (size l.node + size r.node + 1) s) (equality N o l r at s)
  unfolding equality
  equality-Compared o l r at s e hl hr = go l.ty r.ty hl hr
    where
      Bound : M F (Node F) → Type 0
      Bound m = Sat (Compared (size l.node + size r.node + 1) s) (m s)

      swap : size l.node + size r.node + 1 ≡ size r.node + size l.node + 1
      swap = omega arith

      go :
          (t u : Ty)
          → HasType N ctx slots l.node t
          → HasType N ctx slots r.node u
          → Bound (equality N o (record l { ty = t }) (record r { ty = u }) at)
      go (enum vs) u hl hr = against o vs r.str_literal u l r at s e hl
      go number (enum vs) hl hr = rw swap (against o vs l.str_literal number r l at s e hr)
      go boolean (enum vs) hl hr = rw swap (against o vs l.str_literal boolean r l at s e hr)
      go number number hl hr =
          if_cases Bound (no_literals N l.str_literal r.str_literal)
            (λ _. alike o number l r s e hl hr) (λ _. λ e. cc)
      go boolean boolean hl hr =
          if_cases Bound (no_literals N l.str_literal r.str_literal)
            (λ _. alike o boolean l r s e hl hr) (λ _. λ e. cc)
      go number boolean hl hr = λ e. cc
      go boolean number hl hr = λ e. cc

  -- The tail of a comparison, after its operands: `bound` nodes are counted before it.
  compare_with-Sat :
      (o : BinOp) (at : ℕ) (l r : Typed F) (s : State F)
      → is_comparison o ≡ true
      → WellTyped N ctx slots l
      → WellTyped N ctx slots r
      → Sat
          (λ t s'.
            WellTyped N ctx slots t
            × (size t.node ≤ size l.node + size r.node + 1)
            × (s'.nodes ≡ s.nodes + 1)
            × (s'.nodes ≤ max_nodes)
            × (s'.tokens ≡ s.tokens))
          (compare_with N o at l r s)
  unfolding compare_with make_binary size
  compare_with-Sat o at l r s c hl hr =
      Sat-bind Post (count at s) _ (count-Sat at s) (λ _ s1 (e1, room).
        elim (Bool-cases (is_equality o)) [
          | inl e ↦ rw e (
              Sat-bind Post (equality N o l r at s1) _ (equality-Compared o l r at s1 e hl hr)
                (λ n s2 (h, bound, same). (h, bound, cc, rw (same, e1) room, cc)))
          | inr e ↦ rw e (
              Sat-bind Post (need_number l s1) _ (need_number-Asks l s1) (λ _ s2 (e2, hl').
                Sat-bind Post (need_number r s2) _ (need_number-Asks r s2) (λ _ s3 (e3, hr'). (
                  bin_typed o number boolean l.node r.node (comparison-Operates o c e)
                      (rw hl' at hl) (rw hr' at hr),
                  omega arith,
                  cc,
                  rw (e3, e2, e1) room,
                  cc,
                ))))
        ])
    where
      Post : Typed F → State F → Type 0
      Post t s' =
          WellTyped N ctx slots t
          × (size t.node ≤ size l.node + size r.node + 1)
          × (s'.nodes ≡ s.nodes + 1)
          × (s'.nodes ≤ max_nodes)
          × (s'.tokens ≡ s.tokens)

  pub cmp_rest-Continues :
      (f : ℕ)
      → Parses N ctx slots 4 (sum_ N ctx slots f) f
      → Continues N ctx slots (cmp_rest N ctx slots (suc f)) (suc f)
  unfolding cmp_rest advance
  cmp_rest-Continues f p base l s t sz few enough = elim (Option-cases (binary_of (peek s))) [
    | inl e ↦ rw (e, cmp_rest) stays
    | inr (o, e) ↦ elim (Bool-cases (is_comparison o)) [
      | inl e' ↦ rw (e, e', cmp_rest) (compares o e' (binary-consumes o s e))
      | inr e' ↦ rw (e, e', cmp_rest) stays
    ]
  ]
    where
      Post : Typed F → State F → Type 0
      Post = Good N ctx slots base (suc (length s.tokens))

      stays : Post l s
      stays = record { well_typed = t; counted = sz; few_nodes = few; consumed = omega arith }

      compares :
          (o : BinOp)
          → is_comparison o ≡ true
          → length (after s).tokens < length s.tokens
          → Sat Post (
              (advance >> (sum_ N ctx slots f >>= λ r. compare_with N o (token_pos (peek s)) l r))
                s)
      compares o c less =
          Sat-bind Post (sum_ N ctx slots f (after s)) _ (p (after s) few (omega arith)) (λ r s1 g.
            Sat-mono Post (compare_with N o (token_pos (peek s)) l r s1)
              (compare_with-Sat o (token_pos (peek s)) l r s1 c t g.well_typed)
              (λ q s2 (h, small, nodes, room, same).
                let covered = g.counted in
                let fewer = g.consumed in
                let left : length s2.tokens ≡ length s1.tokens = ap length same in
                record {
                  well_typed = h;
                  counted = omega arith;
                  few_nodes = room;
                  consumed = omega arith;
                }))
