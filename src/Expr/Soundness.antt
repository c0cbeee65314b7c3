-- ===== src/Expr/Soundness.antt =====
-- What each method of the parser ensures: it returns a well-typed tree whose size the count of nodes
-- covers, having consumed tokens, or it throws an error of the source. It never runs out of fuel.
pub mod Steps
pub mod Operators
pub mod Atoms
pub mod Comparisons
pub mod Methods
pub mod Tokens
pub mod Compiled
use agentsimjs.Prelude.{
  ℕ, zero, suc, ◌+◌, ◌*◌, ◌≤◌, ◌<◌, ◌≡◌, ◌≢◌, refl, Option, Result, ok, err, length,
}
use agentsimjs.Expr.Syntax.{Text, Numbers, ExprError, out_of_fuel, max_nodes, Ty, Context}
use agentsimjs.Expr.Parser.{State, Typed, M}
use agentsimjs.Expr.Typing.{HasType, size}

abbrev pub IsSource : ExprError → Type 0
IsSource e = e.error_code ≢ out_of_fuel

-- A postcondition of a method; what it throws is an error of the source.
abbrev pub Sat : {F A : Type 0} → (A → State F → Type 0) → Result ExprError (A × State F) → Type 0
Sat P (ok (a, s)) = P a s
Sat P (err e) = IsSource e

pub Sat-bind :
    {F A B : Type 0} {P : A → State F → Type 0} (Q : B → State F → Type 0)
    (r : Result ExprError (A × State F)) (k : A → State F → Result ExprError (B × State F))
    → Sat P r
    → ((a : A) (s : State F) → P a s → Sat Q (k a s))
    → Sat Q (elim r [ ok (a, s) ↦ k a s | err e ↦ err e ])
Sat-bind Q (ok (a, s)) k h f = f a s h
Sat-bind Q (err e) k h f = h

pub Sat-mono :
    {F A : Type 0} {P : A → State F → Type 0} (Q : A → State F → Type 0)
    (r : Result ExprError (A × State F))
    → Sat P r
    → ((a : A) (s : State F) → P a s → Q a s)
    → Sat Q r
Sat-mono Q (ok (a, s)) h f = f a s h
Sat-mono Q (err e) h f = h

module _ (N : Numbers) (ctx : Context) (slots : Text → Option ℕ) where
  open N use {F}

  abbrev pub WellTyped : Typed F → Type 0
  WellTyped t = HasType N ctx slots t.node t.ty

  -- After a method that started with `base` nodes counted, with fewer than `bound` tokens left.
  pub record Good (base bound : ℕ) (t : Typed F) (s : State F) : Type 0 where
    pub well_typed : WellTyped t
    pub counted : size t.node + base ≤ s.nodes
    pub few_nodes : s.nodes ≤ max_nodes
    pub consumed : length s.tokens < bound

  -- A method of the grammar at a level, on enough fuel.
  abbrev pub Parses : ℕ → M F (Typed F) → ℕ → Type 0
  Parses level m fuel =
      (s : State F)
      → s.nodes ≤ max_nodes
      → 16 * length s.tokens + level ≤ fuel
      → Sat (Good s.nodes (length s.tokens)) (m s)

  -- A loop of the grammar, from an operand that is already read.
  abbrev pub Continues : (Typed F → M F (Typed F)) → ℕ → Type 0
  Continues loop fuel =
      (base : ℕ) (l : Typed F) (s : State F)
      → WellTyped l
      → size l.node + base ≤ s.nodes
      → s.nodes ≤ max_nodes
      → 16 * length s.tokens + 1 ≤ fuel
      → Sat (Good base (suc (length s.tokens))) (loop l s)
