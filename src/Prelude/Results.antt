-- ===== src/Prelude/Results.antt =====
-- packages/core/src/result.ts: `Result`, the typed result used at every boundary. `Outcome` is a
-- call that changes state and may throw: what it returns or throws, and the state it leaves.
use mathlib.Core.Path.{◌≡◌, refl}
use mathlib.Core.Logic.{◌⊎◌, inl, inr}

pub data Result {ℓ} (E A : Type ℓ) : Type ℓ where
  ok : A → Result E A
  err : E → Result E A

pub data Outcome {ℓ} (E A S : Type ℓ) : Type ℓ where
  returned : A → S → Outcome E A S
  threw : E → S → Outcome E A S

-- `try { r } catch`: what follows a call that returns, and what follows one that throws.
abbrev pub settle {ℓ} :
    {E A S B T : Type ℓ}
    → Outcome E A S
    → (A → S → Outcome E B T)
    → (E → S → Outcome E B T)
    → Outcome E B T
settle (returned a s) f g = f a s
settle (threw e s) f g = g e s

-- A postcondition for either way that a call can end.
abbrev pub Ensures {ℓ κ} :
    {E A S : Type ℓ} → (A → S → Type κ) → (E → S → Type κ) → Outcome E A S → Type κ
Ensures P Q (returned a s) = P a s
Ensures P Q (threw e s) = Q e s

pub Ensures-settle {ℓ κ} :
    {E A S B T : Type ℓ} {P : A → S → Type κ} {Q : E → S → Type κ} (P' : B → T → Type κ)
    (Q' : E → T → Type κ) (r : Outcome E A S) (f : A → S → Outcome E B T)
    (g : E → S → Outcome E B T)
    → Ensures P Q r
    → ((a : A) (s : S) → P a s → Ensures P' Q' (f a s))
    → ((e : E) (s : S) → Q e s → Ensures P' Q' (g e s))
    → Ensures P' Q' (settle r f g)
Ensures-settle P' Q' (returned a s) f g h p q = p a s h
Ensures-settle P' Q' (threw e s) f g h p q = q e s h

pub Ensures-mono {ℓ κ} :
    {E A S : Type ℓ} {P : A → S → Type κ} {Q : E → S → Type κ} (P' : A → S → Type κ)
    (Q' : E → S → Type κ) (r : Outcome E A S)
    → Ensures P Q r
    → ((a : A) (s : S) → P a s → P' a s)
    → ((e : E) (s : S) → Q e s → Q' e s)
    → Ensures P' Q' r
Ensures-mono P' Q' (returned a s) h p q = p a s h
Ensures-mono P' Q' (threw e s) h p q = q e s h

-- The state that a call leaves, whether it returns or throws.
abbrev pub left_by {ℓ} : {E A S : Type ℓ} → Outcome E A S → S
left_by (returned _ s) = s
left_by (threw _ s) = s

infixl 5 ◌>>=◌ ◌>>◌
abbrev pub ◌>>=◌ {ℓ} : {E A B : Type ℓ} → Result E A → (A → Result E B) → Result E B
ok a >>= f = f a
err e >>= f = err e

abbrev pub ◌>>◌ : {E B : Type 0} → Result E (Unit {0}) → Result E B → Result E B
m >> k = m >>= λ _. k

-- What holds of a result, if it is one.
abbrev pub Accepts {ℓ κ} : {E A : Type ℓ} → (A → Type κ) → Result E A → Type κ
Accepts P (ok a) = P a
Accepts P (err e) = Unit

pub Accepts-bind {ℓ κ} :
    {E A B : Type ℓ} {P : A → Type κ} (Q : B → Type κ) (r : Result E A) (f : A → Result E B)
    → Accepts P r
    → ((a : A) → P a → Accepts Q (f a))
    → Accepts Q (r >>= f)
Accepts-bind Q (ok a) f h k = k a h
Accepts-bind Q (err e) f h k = tt

pub Result-cases {ℓ} :
    {E A : Type ℓ} (r : Result E A) → ((e : E) × (r ≡ err e)) ⊎ ((a : A) × (r ≡ ok a))
Result-cases (ok a) = inr (a, refl)
Result-cases (err e) = inl (e, refl)
