-- ===== src/Documents/Versions.antt =====
-- The numbering of a document's versions.
use agentsimjs.Prelude.{
  ℕ, suc, ◌+◌, ◌≤◌, ◌≡◌, ◌≢◌, refl, sym, ap, ◌∙◌, subst, false, List, [], ◌∷◌, ◌++◌, some, ◌==◌,
  ==_iff, length, if◌then◌else◌, inl, inr, Bool-cases, arith,
}
use agentsimjs.Expr.Syntax.{Text, text_eq}
use agentsimjs.Expr.TextEquality.{text_eq_sound, text_eq_refl}
use agentsimjs.Documents.{Entry, Store, versions_of, put, live, last_of, find_version, next_version}

text_eq_ne : (s t : Text) → s ≢ t → text_eq s t ≡ false
text_eq_ne s t h = elim (Bool-cases (text_eq s t)) [
  | inl e ↦ absurd (h (text_eq_sound s t e))
  | inr e ↦ e
]

module _ {D : Type 0} where
  pub versions_of-put :
      (m : Store D) (id : Text) (es : List (Entry D)) → versions_of (put m id es) id ≡ es
  unfolding versions_of put
  versions_of-put [] id es = rw (text_eq_refl id) refl
  versions_of-put ((k, old) ∷ m) id es = elim (Bool-cases (text_eq k id)) [
    | inl e ↦ rw (e, versions_of, put) (rw e refl)
    | inr e ↦ rw (e, versions_of, put) (rw e (versions_of-put m id es))
  ]

  pub versions_of-put_other :
      (m : Store D) (id other : Text) (es : List (Entry D))
      → id ≢ other
      → versions_of (put m id es) other ≡ versions_of m other
  unfolding versions_of put
  versions_of-put_other [] id other es h = rw (text_eq_ne id other h) refl
  versions_of-put_other ((k, old) ∷ m) id other es h = elim (Bool-cases (text_eq k id)) [
    | inl e ↦
        let q = text_eq_ne k other (λ p. h (sym (text_eq_sound k id e) ∙ p)) in
        rw (e, versions_of, put) (rw q refl)
    | inr e ↦
        rw (e, versions_of, put)
          (elim (Bool-cases (text_eq k other)) [
            | inl q ↦ rw q refl
            | inr q ↦ rw q (versions_of-put_other m id other es h)
          ])
  ]

  -- Consecutive versions from `k` on.
  abbrev pub Numbered : ℕ → List (Entry D) → Type 0
  Numbered k [] = Unit
  Numbered k (e ∷ es) = (e.version ≡ k) × Numbered (suc k) es

  pub next_version-Numbered :
      (k : ℕ) (e : Entry D) (es : List (Entry D))
      → Numbered k (e ∷ es)
      → next_version (e ∷ es) ≡ k + length (e ∷ es)
  unfolding next_version last_of
  next_version-Numbered k e [] (h, _) = omega arith
  next_version-Numbered k e (f ∷ es) (_, h) =
      let r = next_version-Numbered (suc k) f es h in
      let q : suc k + length (f ∷ es) ≡ k + length (e ∷ f ∷ es) = omega arith in r ∙ q

  pub find_version_above :
      (k n : ℕ) (es : List (Entry D)) (e : Entry D)
      → Numbered k es
      → k + length es ≤ n
      → e.version ≡ n
      → e.deleted ≡ false
      → find_version (live (es ++ e ∷ [])) n ≡ some e
  unfolding find_version live
  find_version_above k n [] e h b v d =
      let (_, f) = ==_iff e.version n in let q = f v in rw (d, find_version, live) (rw q refl)
  find_version_above k n (x ∷ xs) e (p, h) b v d =
      let later = find_version_above (suc k) n xs e h (omega arith) v d in
      let q : (x.version == n) ≡ false = ground arith in
      elim (Bool-cases x.deleted) [ inl g ↦ rw (g, live) later | inr g ↦ rw (g, live) (rw q later) ]

  last_of-cons :
      (x : Entry D) (es : List (Entry D)) (e : Entry D)
      → last_of es ≡ some e
      → last_of (x ∷ es) ≡ some e
  unfolding last_of
  last_of-cons x [] e h = cc h
  last_of-cons x (f ∷ es) e h = h

  live_kept : (x : Entry D) (xs : List (Entry D)) → x.deleted ≡ false → live (x ∷ xs) ≡ x ∷ live xs
  unfolding live
  live_kept x xs g = ap (λ b. if b then live xs else x ∷ live xs) g

  pub last_of-live :
      (es : List (Entry D)) (e : Entry D)
      → e.deleted ≡ false
      → last_of (live (es ++ e ∷ [])) ≡ some e
  unfolding last_of live
  last_of-live [] e d = rw (d, live) refl
  last_of-live (x ∷ xs) e d = elim (Bool-cases x.deleted) [
    | inl g ↦ rw (g, live) (last_of-live xs e d)
    | inr g ↦
        subst (λ ys. last_of ys ≡ some e) (sym (live_kept x (xs ++ e ∷ []) g))
          (last_of-cons x (live (xs ++ e ∷ [])) e (last_of-live xs e d))
  ]
