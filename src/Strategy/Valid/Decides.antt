-- ===== src/Strategy/Valid/Decides.antt =====
-- Checks that accept exactly what a predicate describes.
use agentsimjs.Prelude.{
  ◌≡◌, refl, ◌∙◌, ap, Bool, true, false, Result, ok, err, ◌>>=◌, ◌>>◌, ℕ, ◌≤◌, ltb, arith, Accepts,
  Accepts-bind, List,
}
use agentsimjs.Strategy.{Segment}
use agentsimjs.Strategy.Document.{StrategyErrorCode, Field}
use agentsimjs.Strategy.Validate.{Checked, fail, refuse_if}

-- A check that returns `a` where `P a` holds, and returns nothing else.
pub record Decides {A : Type 0} (P : A → Type 0) (r : Checked A) : Type 0 where
  pub sound : Accepts P r
  pub complete : (a : A) → P a → r ≡ ok a

Accepts-mono :
    {E A : Type 0} {P : A → Type 0} (Q : A → Type 0) (r : Result E A)
    → Accepts P r
    → ((a : A) → P a → Q a)
    → Accepts Q r
Accepts-mono Q (ok a) p h = h a p
Accepts-mono Q (err e) p h = tt

pub Decides-fail :
    {A : Type 0} (c : StrategyErrorCode) (p : List Segment) (f : Field)
    → Decides {A = A} (λ _. ⊥) (fail c p f)
Decides-fail c p f = record { sound = tt; complete = λ a h. absurd h }

pub Decides-refuse_if :
    (P : Type 0) (b : Bool) (c : StrategyErrorCode) (p : List Segment) (f : Field)
    → (b ≡ false → P)
    → (P → b ≡ false)
    → Decides (λ _. P) (refuse_if b c p f)
Decides-refuse_if P true c p f h k = record { sound = tt; complete = λ a q. cc (k q) }
Decides-refuse_if P false c p f h k = record { sound = h refl; complete = λ a q. refl }

pub Decides-bind :
    {A B : Type 0} (P : A → Type 0) (Q : A → B → Type 0) (m : Checked A) (f : A → Checked B)
    → Decides P m
    → ((a : A) → Decides (Q a) (f a))
    → Decides (λ b. (a : A) × (P a × Q a b)) (m >>= f)
Decides-bind {A} {B} P Q m f h k = record {
  sound =
      Accepts-bind (λ b. (a : A) × (P a × Q a b)) m f h.sound
        (λ a p.
          Accepts-mono {P = Q a} (λ b. (a : A) × (P a × Q a b)) (f a) (k a).sound
            (λ b q. (a, (p, q))));
  complete = λ b (a, (p, q)). ap (λ r. r >>= f) (h.complete a p) ∙ (k a).complete b q;
}

pub Decides-↔ :
    {A : Type 0} {P : A → Type 0} (Q : A → Type 0) (r : Checked A)
    → Decides P r
    → ((a : A) → P a → Q a)
    → ((a : A) → Q a → P a)
    → Decides Q r
Decides-↔ Q (ok a) d h k = record { sound = h a d.sound; complete = λ b q. d.complete b (k b q) }
Decides-↔ Q (err e) d h k = record { sound = tt; complete = λ b q. d.complete b (k b q) }

-- One check after another.
pub also :
    {B P : Type 0} {Q : B → Type 0} {m : Checked (Unit {0})} {k : Checked B}
    → Decides (λ _. P) m
    → Decides Q k
    → Decides (λ b. P × Q b) (m >> k)
also {B} {P} {Q} {m} {k} h d =
    Decides-↔ (λ b. P × Q b) (m >> k) (Decides-bind (λ _. P) (λ _ b. Q b) m (λ _. k) h (λ _. d))
      (λ b (u, (p, q)). (p, q)) (λ b (p, q). (tt, (p, q)))

-- A refusal above a bound.
pub Decides-at_most :
    (n b : ℕ) (c : StrategyErrorCode) (p : List Segment) (f : Field)
    → Decides (λ _. n ≤ b) (refuse_if (ltb b n) c p f)
Decides-at_most n b c p f =
    Decides-refuse_if (n ≤ b) (ltb b n) c p f (λ h. ground arith) (λ h. ground arith)

pub Decides-ok : {A : Type 0} (a : A) → Decides (λ b. a ≡ b) (ok a)
Decides-ok a = record { sound = refl; complete = λ b e. ap ok e }

pub passes : Decides {A = Unit {0}} (λ _. Unit) (ok tt)
passes = record { sound = tt; complete = λ a h. refl }
