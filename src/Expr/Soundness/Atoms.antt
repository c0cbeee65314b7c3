-- ===== src/Expr/Soundness/Atoms.antt =====
-- The levels without a loop: negation, unary minus, atoms, and the comparison of two operands.
use agentsimjs.Prelude.{
  ℕ, suc, ◌+◌, ◌*◌, ◌≤◌, ◌<◌, ◌≡◌, ◌≢◌, inl, inr, refl, ap, List, [], ◌∷◌, Option, none, some, ok,
  length, arith, if_cases, Bool-cases, Option-cases,
}
use agentsimjs.Expr.Syntax.{
  Text, text_eq, codes, Numbers, max_nodes, Ty, number, boolean, Context, lookup, BinOp, or_op,
  and_op, lt_op, le_op, gt_op, ge_op, eq_op, ne_op, plus, minus, times, divide, Node, const, neg,
  not_node, Token, num, str, id, op, end, binary, open_paren, close_paren,
}
use agentsimjs.Expr.Parser.{
  State, Typed, M, peek, rest_of, advance, is_word, is_keyword, binary_of, need_boolean,
  need_number, typed, token_pos, count, name_atom, expect_close, ◌>>=◌, ◌>>◌,
}
use agentsimjs.Expr.Grammar.{or_, not_, cmp, unary, atom}
use agentsimjs.Expr.Typing.{
  HasType, const_number, const_true, const_false, slot_typed, neg_typed, not_typed, size,
}
use agentsimjs.Expr.Soundness.{Sat, Sat-bind, Sat-mono, WellTyped, Good, Parses}
use agentsimjs.Expr.Soundness.Steps.{
  after, word-consumes, binary-consumes, count-Sat, Asks, need_boolean-Asks, need_number-Asks,
}

module _ (N : Numbers) (ctx : Context) (slots : Text → Option ℕ) where
  open N use {F, of_index}

  -- A prefix operator: it, its operand, the operand's type and the count.
  prefix :
      (wrap : Node F → Node F) (a t : Ty) (need : Typed F → M F Unit) (m : M F (Typed F))
      (level fuel at : ℕ) (s : State F)
      → ((e : Node F) → HasType N ctx slots e a → HasType N ctx slots (wrap e) t)
      → ((e : Node F) → size (wrap e) ≡ size e + 1)
      → Asks need a
      → Parses N ctx slots level m fuel
      → s.nodes ≤ max_nodes
      → 16 * length s.tokens + 1 ≤ suc fuel
      → level ≤ 16
      → length (after s).tokens < length s.tokens
      → Sat (Good N ctx slots s.nodes (length s.tokens)) (
          (advance >> (m >>= λ e. need e >> (count at >> λ s. ok (typed (wrap e.node) t at, s)))) s)
  unfolding advance
  prefix wrap a t need m level fuel at s rule grows asks parses few enough low less =
      Sat-bind Post (m (after s)) _ (parses (after s) few (omega arith)) (λ e s1 g.
        Sat-bind Post (need e s1) _ (asks e s1) (λ _ s2 (e2, te).
          Sat-bind Post (count at s2) _ (count-Sat at s2) (λ _ s3 (e3, room).
            let here : s2.nodes ≡ s1.nodes = cc in
            let nodes : s3.nodes ≡ s1.nodes + 1 = cc in
            let tokens : s3.tokens ≡ s1.tokens = cc in
            let left : length s3.tokens ≡ length s1.tokens = ap length tokens in
            let one = grows e.node in
            let counted = g.counted in
            let consumed = g.consumed in
            record {
              well_typed = rule e.node (rw te at g.well_typed);
              counted = omega arith;
              few_nodes = omega arith;
              consumed = omega arith;
            })))
    where
      Post : Typed F → State F → Type 0
      Post = Good N ctx slots s.nodes (length s.tokens)

  pub not_-Parses :
      (f : ℕ)
      → Parses N ctx slots 6 (not_ N ctx slots f) f
      → Parses N ctx slots 5 (cmp N ctx slots f) f
      → Parses N ctx slots 6 (not_ N ctx slots (suc f)) (suc f)
  unfolding not_ size
  not_-Parses f p q s few enough = elim (Bool-cases (is_word (codes "not") (peek s))) [
    | inl e ↦
        rw (e, not_)
          (prefix not_node boolean boolean need_boolean _ 6 f (token_pos (peek s)) s not_typed
            (λ _. refl) need_boolean-Asks p few (omega arith) (omega arith)
            (word-consumes (codes "not") s e))
    | inr e ↦ rw (e, not_) (q s few (omega arith))
  ]

  pub unary-Parses :
      (f : ℕ)
      → Parses N ctx slots 2 (unary N ctx slots f) f
      → Parses N ctx slots 1 (atom N ctx slots f) f
      → Parses N ctx slots 2 (unary N ctx slots (suc f)) (suc f)
  unfolding unary size
  unary-Parses f p q s few enough = elim (Option-cases (binary_of (peek s))) [
    | inl e ↦ rw (e, unary) rest
    | inr (o, e) ↦ by_operator o e
  ]
    where
      Post : Typed F → State F → Type 0
      Post = Good N ctx slots s.nodes (length s.tokens)

      rest : Sat Post (atom N ctx slots f s)
      rest = q s few (omega arith)

      by_operator :
          (o : BinOp) → binary_of (peek s) ≡ some o → Sat Post (unary N ctx slots (suc f) s)
      by_operator minus e =
          rw (e, unary)
            (prefix neg number number need_number _ 2 f (token_pos (peek s)) s neg_typed (λ _. refl)
              need_number-Asks p few (omega arith) (omega arith) (binary-consumes minus s e))
      by_operator plus e = rw (e, unary) rest
      by_operator times e = rw (e, unary) rest
      by_operator divide e = rw (e, unary) rest
      by_operator lt_op e = rw (e, unary) rest
      by_operator le_op e = rw (e, unary) rest
      by_operator gt_op e = rw (e, unary) rest
      by_operator ge_op e = rw (e, unary) rest
      by_operator eq_op e = rw (e, unary) rest
      by_operator ne_op e = rw (e, unary) rest
      by_operator or_op e = rw (e, unary) rest
      by_operator and_op e = rw (e, unary) rest

  -- A leaf for a name: its value or its slot, with nothing consumed or counted.
  abbrev Leaf : State F → Typed F → State F → Type 0
  Leaf s t s' = WellTyped N ctx slots t × (size t.node ≡ 1) × (s' ≡ s)

  name_atom-Leaf : (v : Text) (at : ℕ) (s : State F) → Sat (Leaf s) (name_atom N ctx slots v at s)
  unfolding name_atom size
  name_atom-Leaf v at s =
      if_cases (Named) (text_eq v (codes "true")) (λ _. (const_true, refl, refl))
        (λ _.
          if_cases (Named) (text_eq v (codes "false")) (λ _. (const_false, refl, refl))
            (λ _.
              if_cases (Named) (is_keyword v) (λ _. λ e. cc)
                (λ _. elim (Option-cases (lookup ctx v)) [
                  | inl e ↦ rw e (λ e. cc)
                  | inr (t, e) ↦ elim (Option-cases (slots v)) [
                    | inl e' ↦ rw (e, e') (λ e. cc)
                    | inr (i, e') ↦ rw (e, e') (slot_typed v i t e e', refl, refl)
                  ]
                ])))
    where
      Named : M F (Typed F) → Type 0
      Named m = Sat (Leaf s) (m s)

  pub expect_close-Sat :
      (e : Typed F) (s : State F)
      → Sat
          (λ t s'. (t ≡ e) × (s'.nodes ≡ s.nodes) × (length s'.tokens ≤ length s.tokens))
          (expect_close N e s)
  unfolding expect_close peek rest_of
  expect_close-Sat e s = go s.tokens
    where
      go :
          (ts : List (Token F))
          → Sat
              (λ t s'. (t ≡ e) × (s'.nodes ≡ s.nodes) × (length s'.tokens ≤ length ts))
              (expect_close N e (record s { tokens = ts }))
      go [] = λ e. cc
      go (op close_paren at ∷ ts) = (refl, refl, omega arith)
      go (op open_paren at ∷ ts) = λ e. cc
      go (op (binary b) at ∷ ts) = λ e. cc
      go (num v at ∷ ts) = λ e. cc
      go (str v at ∷ ts) = λ e. cc
      go (id v at ∷ ts) = λ e. cc
      go (end at ∷ ts) = λ e. cc

  peek-consumes :
      (s : State F) → ((at : ℕ) → peek s ≢ end at) → length (after s).tokens < length s.tokens
  unfolding peek rest_of
  peek-consumes s h = go s.tokens h
    where
      go :
          (ts : List (Token F))
          → ((at : ℕ) → peek (record s { tokens = ts }) ≢ end at)
          → length (rest_of ts) < length ts
      go [] h = absurd (h 0 refl)
      go (t ∷ ts) h = omega arith

  -- An atom counts itself, and the rest follows on a counted state.
  counted :
      (at : ℕ) (s : State F) (rest : M F (Typed F))
      → ((s.nodes + 1 ≤ max_nodes)
          → Sat
              (Good N ctx slots s.nodes (length s.tokens))
              (rest (record s { nodes = s.nodes + 1 })))
      → Sat (Good N ctx slots s.nodes (length s.tokens)) ((count at >> rest) s)
  counted at s rest h =
      Sat-bind (Good N ctx slots s.nodes (length s.tokens)) (count at s) _ (count-Sat at s)
        (λ _ s1 (e, room). rw e (h room))

  leaf :
      (n : Node F) (t : Ty) (l : Option Text) (at : ℕ) (s : State F)
      → HasType N ctx slots n t
      → size n ≡ 1
      → s.nodes + 1 ≤ max_nodes
      → ((at : ℕ) → peek s ≢ end at)
      → Good N ctx slots s.nodes
          (length s.tokens)
          (record { node = n; ty = t; str_literal = l; pos = at })
          (record { tokens = rest_of s.tokens; nodes = s.nodes + 1 })
  leaf n t l at s h one room going = record {
    well_typed = h;
    counted = omega arith;
    few_nodes = room;
    consumed = peek-consumes s going;
  }

  pub atom-Parses :
      (f : ℕ)
      → Parses N ctx slots 8 (or_ N ctx slots f) f
      → Parses N ctx slots 1 (atom N ctx slots (suc f)) (suc f)
  unfolding atom size token_pos advance
  atom-Parses f p s few enough = go (peek s) refl
    where
      Post : Typed F → State F → Type 0
      Post = Good N ctx slots s.nodes (length s.tokens)

      inside :
          s.nodes + 1 ≤ max_nodes
          → length (rest_of s.tokens) < length s.tokens
          → Sat Post (
              (or_ N ctx slots f >>= expect_close N)
                (record { tokens = rest_of s.tokens; nodes = s.nodes + 1 }))
      inside room less =
          Sat-bind Post (or_ N ctx slots f _) _
            (p (record { tokens = rest_of s.tokens; nodes = s.nodes + 1 }) room (omega arith))
            (λ e s1 g.
              Sat-mono Post (expect_close N e s1) (expect_close-Sat e s1)
                (λ t s2 (same, nodes, left).
                  let covered = g.counted in
                  let fewer : length s1.tokens < length (rest_of s.tokens) = g.consumed in
                  let known = g.few_nodes in
                  record {
                    well_typed = rw same g.well_typed;
                    counted = rw same (omega arith);
                    few_nodes = omega arith;
                    consumed = omega arith;
                  }))

      go : (t : Token F) → peek s ≡ t → Sat Post (atom N ctx slots (suc f) s)
      go (num v at) e =
          rw (e, atom)
            (counted at s _
              (λ room. leaf (const v) number none at s (const_number v) refl room (λ at' e'. cc)))
      go (str v at) e =
          rw (e, atom)
            (counted at s _ (λ room.
              leaf (const N.nan) number (some v) at s (const_number N.nan) refl room
                (λ at' e'. cc)))
      go (id v at) e =
          rw (e, atom)
            (counted at s _ (λ room.
              Sat-mono Post _ (name_atom-Leaf v at _) (λ t s' (typing, one, same).
                rw same (leaf t.node t.ty t.str_literal t.pos s typing one room (λ at' e'. cc)))))
      go (op open_paren at) e =
          rw (e, atom) (counted at s _ (λ room. inside room (peek-consumes s (λ at' e'. cc))))
      go (op close_paren at) e = rw (e, atom) (counted at s _ (λ room. λ e. cc))
      go (op (binary b) at) e = rw (e, atom) (counted at s _ (λ room. λ e. cc))
      go (end at) e = rw (e, atom) (counted at s _ (λ room. λ e. cc))
