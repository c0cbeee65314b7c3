-- ===== src/Expr/Soundness/Methods.antt =====
-- All methods of the parser at once, by induction on fuel.
use agentsimjs.Prelude.{ℕ, zero, suc, Option, arith}
use agentsimjs.Expr.Syntax.{Text, Numbers, Context}
use agentsimjs.Expr.Grammar.{
  or_, or_loop, and_, and_loop, not_, cmp, cmp_rest, sum_, sum_loop, prod, prod_loop, unary, atom,
}
use agentsimjs.Expr.Soundness.{Parses, Continues}
use agentsimjs.Expr.Soundness.Operators.{
  or_-Parses, or_loop-Continues, and_-Parses, and_loop-Continues, sum_-Parses, sum_loop-Continues,
  prod-Parses, prod_loop-Continues, cmp-Parses,
}
use agentsimjs.Expr.Soundness.Atoms.{not_-Parses, unary-Parses, atom-Parses}
use agentsimjs.Expr.Soundness.Comparisons.{cmp_rest-Continues}

module _ (N : Numbers) (ctx : Context) (slots : Text → Option ℕ) where
  pub record Methods (f : ℕ) : Type 0 where
    pub or_ok : Parses N ctx slots 8 (or_ N ctx slots f) f
    pub or_loop_ok : Continues N ctx slots (or_loop N ctx slots f) f
    pub and_ok : Parses N ctx slots 7 (and_ N ctx slots f) f
    pub and_loop_ok : Continues N ctx slots (and_loop N ctx slots f) f
    pub not_ok : Parses N ctx slots 6 (not_ N ctx slots f) f
    pub cmp_ok : Parses N ctx slots 5 (cmp N ctx slots f) f
    pub cmp_rest_ok : Continues N ctx slots (cmp_rest N ctx slots f) f
    pub sum_ok : Parses N ctx slots 4 (sum_ N ctx slots f) f
    pub sum_loop_ok : Continues N ctx slots (sum_loop N ctx slots f) f
    pub prod_ok : Parses N ctx slots 3 (prod N ctx slots f) f
    pub prod_loop_ok : Continues N ctx slots (prod_loop N ctx slots f) f
    pub unary_ok : Parses N ctx slots 2 (unary N ctx slots f) f
    pub atom_ok : Parses N ctx slots 1 (atom N ctx slots f) f

  pub methods : (f : ℕ) → Methods f
  methods zero = record {
    or_ok = λ s n h. absurd (omega arith);
    or_loop_ok = λ b l s t z n h. absurd (omega arith);
    and_ok = λ s n h. absurd (omega arith);
    and_loop_ok = λ b l s t z n h. absurd (omega arith);
    not_ok = λ s n h. absurd (omega arith);
    cmp_ok = λ s n h. absurd (omega arith);
    cmp_rest_ok = λ b l s t z n h. absurd (omega arith);
    sum_ok = λ s n h. absurd (omega arith);
    sum_loop_ok = λ b l s t z n h. absurd (omega arith);
    prod_ok = λ s n h. absurd (omega arith);
    prod_loop_ok = λ b l s t z n h. absurd (omega arith);
    unary_ok = λ s n h. absurd (omega arith);
    atom_ok = λ s n h. absurd (omega arith);
  }
  methods (suc f) =
      let m = methods f in
      record {
        or_ok = or_-Parses N ctx slots f m.and_ok m.or_loop_ok;
        or_loop_ok = or_loop-Continues N ctx slots f m.and_ok m.or_loop_ok;
        and_ok = and_-Parses N ctx slots f m.not_ok m.and_loop_ok;
        and_loop_ok = and_loop-Continues N ctx slots f m.not_ok m.and_loop_ok;
        not_ok = not_-Parses N ctx slots f m.not_ok m.cmp_ok;
        cmp_ok = cmp-Parses N ctx slots f m.sum_ok m.cmp_rest_ok;
        cmp_rest_ok = cmp_rest-Continues N ctx slots f m.sum_ok;
        sum_ok = sum_-Parses N ctx slots f m.prod_ok m.sum_loop_ok;
        sum_loop_ok = sum_loop-Continues N ctx slots f m.prod_ok m.sum_loop_ok;
        prod_ok = prod-Parses N ctx slots f m.unary_ok m.prod_loop_ok;
        prod_loop_ok = prod_loop-Continues N ctx slots f m.unary_ok m.prod_loop_ok;
        unary_ok = unary-Parses N ctx slots f m.unary_ok m.atom_ok;
        atom_ok = atom-Parses N ctx slots f m.or_ok;
      }
