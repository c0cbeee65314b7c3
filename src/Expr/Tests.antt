-- ===== src/Expr/Tests.antt =====
-- Runs over a small arithmetic: natural numbers, and NaN.
use agentsimjs.Prelude.{
  ℕ, zero, suc, ◌+◌, ◌-◌, ◌*◌, ◌/◌, ◌≡◌, ◌↔◌, refl, Bool, true, false, List, [], ◌∷◌, Option, none,
  some, ok, err, ltb, leb, ◌==◌, inl, inr,
}
use agentsimjs.Expr.Syntax.{
  Text, codes, Numbers, unknown_enum_value, number, boolean, enum, Context, lt_op, and_op, plus,
  const, slot, bin,
}
use agentsimjs.Expr.Parser.{
  is_word, peek, binary_of, count, advance, name_atom, is_product, is_sum, is_comparison,
  need_number, compare_with, is_equality, make_binary, need_boolean, expect_end,
}
use agentsimjs.Expr.Grammar.{or_}
use agentsimjs.Expr.Compile.{CompiledExpr, compile_expr}
use agentsimjs.Expr.Evaluate.{evaluate_expr, evaluate_condition}
use agentsimjs.Expr.Soundness.Compiled.{Checked, compile_expr-Checked, slots_of}
use agentsimjs.Expr.Values.{IsTruth, BooleanSlots, compile_expr-IsTruth}

abbrev both : (ℕ → ℕ → ℕ) → Option ℕ → Option ℕ → Option ℕ
both f (some a) (some b) = some (f a b)
both f _ _ = none

abbrev test : (ℕ → ℕ → Bool) → Option ℕ → Option ℕ → Bool
test p (some a) (some b) = p a b
test p _ _ = false

abbrev missing : Option ℕ → Bool
missing none = true
missing (some a) = false

abbrev present : Option ℕ → Bool
present none = false
present (some a) = true

abbrev decimal : ℕ → Text → ℕ
decimal n [] = n
decimal n (c ∷ cs) = decimal (10 * n + (c - 48)) cs

pub absent : (v : Option ℕ) → missing v ≡ true → test (λ a b. a == b) v (some 1) ≡ false
absent none e = refl
absent (some a) e = cc

abbrev pub naturals : Numbers
naturals = record {
  F = Option ℕ;
  nan = none;
  zero_f = some 0;
  one_f = some 1;
  of_index = λ i. some i;
  parse_number = λ t. some (decimal 0 t);
  is_nan = missing;
  is_finite = present;
  in_range = λ v. true;
  neg_f = λ v. v;
  add_f = both (λ a b. a + b);
  sub_f = both (λ a b. a - b);
  mul_f = both (λ a b. a * b);
  div_f = both (λ a b. a / b);
  lt_f = test ltb;
  le_f = test leb;
  eq_f = test (λ a b. a == b);
  nan_is_nan = refl;
  one_eq_one = refl;
  zero_ne_one = refl;
  nan_ne_one = absent;
}

abbrev pub drone : Context
drone =
    (codes "battery", number)
    ∷ (codes "mode", enum (codes "idle" ∷ codes "fly" ∷ []))
    ∷ (codes "armed", boolean)
    ∷ []

abbrev pub guard : Text
guard = codes "armed and battery < 20 + 1"

abbrev guard_compiled : CompiledExpr (Option ℕ)
guard_compiled = record {
  source = guard;
  variables = codes "armed" ∷ codes "battery" ∷ [];
  result_type = boolean;
  root = bin and_op (slot 0) (bin lt_op (slot 1) (bin plus (const (some 20)) (const (some 1))));
}

guard_compiles : compile_expr naturals guard drone boolean ≡ ok guard_compiled
unfolding compile_expr or_ is_word peek binary_of count advance name_atom is_product is_sum
    is_comparison need_number compare_with is_equality make_binary need_boolean expect_end
guard_compiles = refl

enum_compiles :
    compile_expr naturals (codes "mode == \"walk\"") drone boolean
    ≡ err (record { error_code = unknown_enum_value; position = 8 })
unfolding compile_expr or_ is_word peek binary_of count advance name_atom is_product is_sum
    is_comparison compare_with is_equality
enum_compiles = refl

compile_expr-Checked_example :
    Checked naturals drone guard boolean (compile_expr naturals guard drone boolean)
compile_expr-Checked_example = compile_expr-Checked naturals drone guard boolean

abbrev flying : List (Option ℕ)
flying = some 1 ∷ some 0 ∷ []

flying-BooleanSlots :
    BooleanSlots naturals drone (slots_of naturals drone guard_compiled.variables) flying
flying-BooleanSlots v zero x e e' m = inr (inr cc)
flying-BooleanSlots v (suc zero) x e e' m = inr (inl cc)
flying-BooleanSlots v (suc (suc i)) x e e' m = cc

compile_expr-IsTruth_example :
    IsTruth naturals (evaluate_expr naturals guard_compiled flying)
    × ((evaluate_condition naturals guard_compiled flying ≡ true)
        ↔ (evaluate_expr naturals guard_compiled flying ≡ some 1))
compile_expr-IsTruth_example =
    compile_expr-IsTruth naturals drone guard guard_compiled flying guard_compiles
      flying-BooleanSlots

guard_holds : evaluate_condition naturals guard_compiled flying ≡ true
unfolding evaluate_condition
guard_holds = refl

-- A text literal has the type of a number, and so passes where no enum is asked for.
literal_compares :
    compile_expr naturals (codes "\"low\" < 1") drone boolean
    ≡ ok (record {
      source = codes "\"low\" < 1";
      variables = [];
      result_type = boolean;
      root = bin lt_op (const none) (const (some 1));
    })
unfolding compile_expr or_ is_word peek binary_of count advance name_atom is_product is_sum
    is_comparison need_number compare_with is_equality make_binary need_boolean expect_end
literal_compares = refl
