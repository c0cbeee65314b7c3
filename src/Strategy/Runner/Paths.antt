-- ===== src/Strategy/Runner/Paths.antt =====
-- Paths over any adjacency, and what the cells of a refine keep of them.
use agentsimjs.Prelude.{
  ℕ, zero, suc, ◌+◌, ◌-◌, ◌<◌, ◌≤◌, ◌≡◌, refl, sym, ap, ◌∙◌, subst, List, [], ◌∷◌, ◌++◌, some,
  length-append, lt→ltb, ◌==◌, ==_iff, ==_refl, length, get_or, if◌then◌else◌, if_cases, arith,
}
use agentsimjs.Strategy.Runner.Geometry.{
  at_last, distinct_after, distinct, every, stride_of, thin, push_cell, push_cells,
}

push_cell_at :
    (cells : List ℕ) (b c : ℕ)
    → at_last cells ≡ some b
    → push_cell cells c ≡ (if b == c then cells else cells ++ c ∷ [])
unfolding push_cell
push_cell_at cells b c h = rw (h, push_cell) refl

module _ (Adjacent : ℕ → ℕ → Type 0) where
  -- From a cell along the next ones.
  abbrev pub Walks : ℕ → List ℕ → ℕ → Type 0
  Walks a [] b = a ≡ b
  Walks a (c ∷ cs) b = Adjacent a c × Walks c cs b

  abbrev pub IsPath : ℕ → ℕ → List ℕ → Type 0
  IsPath a b [] = ⊥
  IsPath a b (c ∷ cs) = (c ≡ a) × Walks c cs b

  -- What is joined so far: nothing, at the start, or a path.
  abbrev pub Reaches : ℕ → ℕ → List ℕ → Type 0
  Reaches a b [] = a ≡ b
  Reaches a b (c ∷ cs) = IsPath a b (c ∷ cs)

  pub IsPath-Reaches : (a b : ℕ) (cells : List ℕ) → IsPath a b cells → Reaches a b cells
  IsPath-Reaches a b [] h = absurd h
  IsPath-Reaches a b (c ∷ cs) h = h

  pub Walks-at_last : (a b : ℕ) (cs : List ℕ) → Walks a cs b → at_last (a ∷ cs) ≡ some b
  unfolding at_last
  Walks-at_last a b [] h = ap some h
  Walks-at_last a b (c ∷ cs) (_, h) = Walks-at_last c b cs h

  Walks-snoc : (a b c : ℕ) (cs : List ℕ) → Walks a cs b → Adjacent b c → Walks a (cs ++ c ∷ []) c
  Walks-snoc a b c [] h k = (subst (λ x. Adjacent x c) (sym h) k, refl)
  Walks-snoc a b c (d ∷ cs) (g, h) k = (g, Walks-snoc d b c cs h k)

  push_cell_stays : (a b : ℕ) (cells : List ℕ) → IsPath a b cells → push_cell cells b ≡ cells
  push_cell_stays a b [] h = absurd h
  push_cell_stays a b (c ∷ cs) (_, h) =
      push_cell_at (c ∷ cs) b b (Walks-at_last c b cs h)
      ∙ ap (λ t. if t then c ∷ cs else (c ∷ cs) ++ b ∷ []) (==_refl b)

  push_cell-IsPath :
      (a b c : ℕ) (cells : List ℕ)
      → IsPath a b cells
      → Adjacent b c
      → IsPath a c (push_cell cells c)
  push_cell-IsPath a b c [] h k = absurd h
  push_cell-IsPath a b c (d ∷ cs) (e, h) k =
      subst (IsPath a c) (sym (push_cell_at (d ∷ cs) b c (Walks-at_last d b cs h))) (
        if_cases (IsPath a c) (b == c)
          (λ t. let (to_equal, _) = ==_iff b c in (e, subst (Walks d cs) (to_equal t) h))
          (λ _. (e, Walks-snoc d b c cs h k)))

  push_cells-Walks :
      (a b d : ℕ) (cells leg : List ℕ)
      → IsPath a b cells
      → Walks b leg d
      → IsPath a d (push_cells cells leg)
  unfolding push_cells
  push_cells-Walks a b d cells [] h k = subst (λ x. IsPath a x cells) k h
  push_cells-Walks a b d cells (c ∷ leg) h (g, k) =
      push_cells-Walks a c d (push_cell cells c) leg (push_cell-IsPath a b c cells h g) k

  pub push_cells-IsPath :
      (a b d : ℕ) (cells leg : List ℕ)
      → Reaches a b cells
      → IsPath b d leg
      → IsPath a d (push_cells cells leg)
  unfolding push_cells
  push_cells-IsPath a b d cells [] h k = absurd k
  push_cells-IsPath a b d [] (c ∷ leg) h (e, k) =
      push_cells-Walks a c d (c ∷ []) leg (e ∙ sym h, refl) k
  push_cells-IsPath a b d (x ∷ cells) (c ∷ leg) h (e, k) =
      let h' : IsPath a c (x ∷ cells) = subst (λ y. IsPath a y (x ∷ cells)) (sym e) h in
      subst (λ z. IsPath a d (push_cells z leg)) (sym (push_cell_stays a c (x ∷ cells) h'))
        (push_cells-Walks a c d (x ∷ cells) leg h' k)

-- Points that lead from one cell to another.
abbrev pub Route : ℕ → ℕ → List ℕ → Type 0
Route a b [] = ⊥
Route a b (c ∷ cs) = (c ≡ a) × (at_last (c ∷ cs) ≡ some b)

at_last-distinct_after :
    (c : ℕ) (cs : List ℕ) → at_last (c ∷ distinct_after c cs) ≡ at_last (c ∷ cs)
unfolding at_last distinct_after
at_last-distinct_after c [] = refl
at_last-distinct_after c (d ∷ cs) =
    if_cases (λ xs. at_last (c ∷ xs) ≡ at_last (d ∷ cs)) (d == c)
      (λ t.
        let (to_equal, _) = ==_iff d c in
        subst (λ x. at_last (x ∷ distinct_after d cs) ≡ at_last (d ∷ cs)) (to_equal t)
          (at_last-distinct_after d cs))
      (λ _. at_last-distinct_after d cs)

pub distinct-Route : (a b : ℕ) (ps : List ℕ) → Route a b ps → Route a b (distinct ps)
unfolding distinct
distinct-Route a b [] h = absurd h
distinct-Route a b (c ∷ cs) (e, h) = (e, at_last-distinct_after c cs ∙ h)

at_last-snoc : (xs : List ℕ) (x : ℕ) → at_last (xs ++ x ∷ []) ≡ some x
unfolding at_last
at_last-snoc [] x = refl
at_last-snoc (y ∷ []) x = refl
at_last-snoc (y ∷ z ∷ xs) x = at_last-snoc (z ∷ xs) x

get_or-at_last :
    (c : ℕ) (cs : List ℕ) (d b : ℕ) → at_last (c ∷ cs) ≡ some b → get_or (c ∷ cs) (length cs) d ≡ b
unfolding at_last
get_or-at_last c [] d b h = cc h
get_or-at_last c (e ∷ cs) d b h = get_or-at_last e cs d b h

pub every_next :
    (fuel i legs stride : ℕ) (ps : List ℕ) (from : ℕ)
    → i < legs
    → every (suc fuel) i legs stride ps from
      ≡ get_or ps i from ∷ every fuel (i + stride) legs stride ps from
unfolding every
every_next fuel i legs stride ps from h = rw (lt→ltb i legs h) refl

pub thin-Route :
    (a b legs : ℕ) (ps : List ℕ)
    → legs ≡ length ps - 1
    → 0 < legs
    → Route a b ps
    → Route a b (thin legs ps a b)
unfolding thin
thin-Route a b legs [] h k r = absurd r
thin-Route a b zero ps h k r = absurd (omega arith)
thin-Route a b (suc n) (c ∷ cs) h k (e, f) =
    let legs : ℕ = suc n in
    let same : suc n ≡ length cs = omega arith in
    let goal : get_or (c ∷ cs) (suc n) b ≡ b =
      subst (λ i. get_or (c ∷ cs) i b ≡ b) (sym same) (get_or-at_last c cs b b f) in
    subst (λ xs. Route a b (xs ++ get_or (c ∷ cs) (suc n) b ∷ []))
      (sym (every_next n 0 legs (stride_of legs) (c ∷ cs) a k))
      (
        e,
        at_last-snoc (c ∷ every n (0 + stride_of legs) legs (stride_of legs) (c ∷ cs) a)
              (get_or (c ∷ cs) (suc n) b)
            ∙ ap some goal,
      )

pub length-thin_pos : (a b legs : ℕ) (ps : List ℕ) → 0 < legs → 2 ≤ length (thin legs ps a b)
unfolding thin
length-thin_pos a b zero ps h = absurd (omega arith)
length-thin_pos a b (suc n) ps h =
    let legs : ℕ = suc n in
    subst (λ xs. 2 ≤ length (xs ++ get_or ps (suc n) b ∷ []))
      (sym (every_next n 0 legs (stride_of legs) ps a h))
      (omega (
        arith,
        length-append (every n (0 + stride_of legs) legs (stride_of legs) ps a)
            (get_or ps (suc n) b ∷ []),
      ))
