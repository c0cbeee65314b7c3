-- ===== src/Expr/Soundness/Steps.antt =====
-- The steps that the methods share: reading a token, counting a node, asking for a type, and the
-- tail of a binary operator.
use agentsimjs.Prelude.{
  ℕ, suc, ◌+◌, ◌*◌, ◌≤◌, ◌<◌, ◌≡◌, refl, ap, true, List, [], ◌∷◌, Option, some, length, ltb, arith,
  if_cases,
}
use agentsimjs.Expr.Syntax.{
  Text, Numbers, max_nodes, Ty, number, boolean, enum, Context, BinOp, Token,
}
use agentsimjs.Expr.Parser.{
  State, Typed, M, peek, rest_of, advance, is_word, binary_of, count, need_boolean, need_number,
  make_binary, ◌>>=◌, ◌>>◌,
}
use agentsimjs.Expr.Typing.{bin_typed, Operates, size}
use agentsimjs.Expr.Soundness.{Sat, Sat-bind, Sat-mono, WellTyped, Good, Parses, Continues}

module _ {F : Type 0} where
  abbrev pub after : State F → State F
  after s = record s { tokens = rest_of s.tokens }

  pub word-consumes :
      (w : Text) (s : State F)
      → is_word w (peek s) ≡ true
      → length (after s).tokens < length s.tokens
  unfolding is_word peek rest_of
  word-consumes w s h = go s.tokens h
    where
      go :
          (ts : List (Token F))
          → is_word w (peek (record s { tokens = ts })) ≡ true
          → length (rest_of ts) < length ts
      go [] h = cc
      go (t ∷ ts) h = omega arith

  pub binary-consumes :
      (o : BinOp) (s : State F)
      → binary_of (peek s) ≡ some o
      → length (after s).tokens < length s.tokens
  unfolding binary_of peek rest_of
  binary-consumes o s h = go s.tokens h
    where
      go :
          (ts : List (Token F))
          → binary_of (peek (record s { tokens = ts })) ≡ some o
          → length (rest_of ts) < length ts
      go [] h = cc
      go (t ∷ ts) h = omega arith

  pub count-Sat :
      (at : ℕ) (s : State F)
      → Sat
          (λ _ s'. (s' ≡ record s { nodes = s.nodes + 1 }) × (s.nodes + 1 ≤ max_nodes))
          (count at s)
  unfolding count
  count-Sat at s =
      if_cases (Sat (λ _ s'. (s' ≡ record s { nodes = s.nodes + 1 }) × (s.nodes + 1 ≤ max_nodes)))
        (ltb max_nodes (s.nodes + 1)) (λ _. λ e. cc) (λ h. (refl, ground arith))

  abbrev pub Asks : (Typed F → M F Unit) → Ty → Type 0
  Asks need a = (t : Typed F) (s : State F) → Sat (λ _ s'. (s' ≡ s) × (t.ty ≡ a)) (need t s)

  pub need_boolean-Asks : Asks need_boolean boolean
  unfolding need_boolean
  need_boolean-Asks t s = go t.ty refl
    where
      go :
          (ty : Ty)
          → t.ty ≡ ty
          → Sat (λ _ s'. (s' ≡ s) × (t.ty ≡ boolean)) (need_boolean (record t { ty = ty }) s)
      go boolean e = (refl, e)
      go number e = λ e. cc
      go (enum vs) e = λ e. cc

  pub need_number-Asks : Asks need_number number
  unfolding need_number
  need_number-Asks t s = go t.ty refl
    where
      go :
          (ty : Ty)
          → t.ty ≡ ty
          → Sat (λ _ s'. (s' ≡ s) × (t.ty ≡ number)) (need_number (record t { ty = ty }) s)
      go number e = (refl, e)
      go boolean e = λ e. cc
      go (enum vs) e = λ e. cc

module _ (N : Numbers) (ctx : Context) (slots : Text → Option ℕ) where
  open N use {F}

  -- One round of a loop: the operator, its right operand, the types, the count, and the loop again.
  pub round :
      (o : BinOp) (a t : Ty) (need : Typed F → M F Unit) (m : M F (Typed F))
      (loop : Typed F → M F (Typed F)) (level fuel at base : ℕ) (l : Typed F) (s : State F)
      → Operates o a t
      → Asks need a
      → Parses N ctx slots level m fuel
      → Continues N ctx slots loop fuel
      → WellTyped N ctx slots l
      → size l.node + base ≤ s.nodes
      → s.nodes ≤ max_nodes
      → 16 * length s.tokens + 1 ≤ suc fuel
      → level ≤ 16
      → length (after s).tokens < length s.tokens
      → Sat (Good N ctx slots base (suc (length s.tokens))) (
          (advance
              >> (m >>= λ r. need l >> (need r >> (count at >> loop (make_binary o t at l r)))))
            s)
  unfolding advance make_binary size
  round o a t need m loop level fuel at base l s ops asks parses continues lt lsize few enough low
        less =
      Sat-bind Post (m (after s)) _ (parses (after s) few (omega arith)) (λ r s1 g.
        Sat-bind Post (need l s1) _ (asks l s1) (λ _ s2 (e2, tl).
          Sat-bind Post (need r s2) _ (asks r s2) (λ _ s3 (e3, tr).
            Sat-bind Post (count at s3) _ (count-Sat at s3) (λ _ s4 (e4, room).
              let nodes : s4.nodes ≡ s1.nodes + 1 = cc in
              let here : s3.nodes ≡ s1.nodes = cc in
              let tokens : s4.tokens ≡ s1.tokens = cc in
              let left : length s4.tokens ≡ length s1.tokens = ap length tokens in
              Sat-mono Post _
                (continues base (make_binary o t at l r) s4
                  (bin_typed o a t l.node r.node ops (rw tl at lt) (rw tr at g.well_typed))
                  (omega arith) (omega arith) (omega arith))
                (λ q s5 h. record {
                  well_typed = h.well_typed;
                  counted = h.counted;
                  few_nodes = h.few_nodes;
                  consumed = omega arith;
                })))))
    where
      Post : Typed F → State F → Type 0
      Post = Good N ctx slots base (suc (length s.tokens))
