-- ===== src/Expr/TextEquality.antt =====
-- The comparison of texts decides their equality.
use agentsimjs.Prelude.{◌≡◌, refl, true, [], ◌∷◌, ◌==◌, ==_iff, ==_refl, and_true}
use agentsimjs.Expr.Syntax.{Text, text_eq}

pub text_eq_sound : (s t : Text) → text_eq s t ≡ true → s ≡ t
unfolding text_eq
text_eq_sound [] [] h = refl
text_eq_sound (a ∷ s) (b ∷ t) h =
    let (e, f) = and_true (a == b) (text_eq s t) h in
    let (to_equal, _) = ==_iff a b in let g = text_eq_sound s t f in let k = to_equal e in cc (g, k)
text_eq_sound [] (b ∷ t) h = cc h
text_eq_sound (a ∷ s) [] h = cc h

pub text_eq_refl : (t : Text) → text_eq t t ≡ true
unfolding text_eq
text_eq_refl [] = refl
text_eq_refl (a ∷ t) = rw (==_refl a, text_eq_refl t) refl
