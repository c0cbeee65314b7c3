-- ===== src/Grid/Refines.antt =====
-- A layer behaves as a function of cells, whatever operations it goes through.
use agentsimjs.Prelude.{
  ℕ, ◌+◌, ◌*◌, ◌/◌, ◌%◌, ◌^◌, ◌<◌, ◌≡◌, ◌↔◌, refl, sym, ap, ◌∙◌, subst, false, List, [], ◌∷◌,
  Option, none, some, ltb, if_cases,
}
use agentsimjs.Grid.{
  ChunkedLayer, new_layer, index_of, offset_of, fill_of, cell_at, get_cell, set_cell,
}
use agentsimjs.Grid.Index.{offset_within}
use agentsimjs.Grid.Writes.{Fits, IsLayer, SameShape, set_at-Wrote}
use agentsimjs.Grid.Chunks.{AllFit}
use agentsimjs.Grid.Meaning.{
  Op, setting, filling, replacing, hashing, apply, apply_all, meaning_all, Admissible,
  AllAdmissible, apply-Means,
}

shape-get_cell :
    (s t : ChunkedLayer) (x y : ℕ)
    → SameShape s t
    → cell_at t (index_of s x y) (offset_of s.chunk_size x y) ≡ get_cell t x y
unfolding get_cell
shape-get_cell s t x y ((p, q), _) = cc (p, q)

Fits-shape : (s t : ChunkedLayer) (v : ℕ) → SameShape s t → Fits s v → Fits t v
Fits-shape s t v (_, (_, b)) h = subst (λ n. v % 2 ^ (8 * n) ≡ v) (sym b) h

AllFit-shape :
    (s t : ChunkedLayer) (values : List ℕ) → SameShape s t → AllFit s values → AllFit t values
AllFit-shape s t [] e h = tt
AllFit-shape s t (v ∷ vs) e (f, h) = (Fits-shape s t v e f, AllFit-shape s t vs e h)

pub Admissible-shape :
    (s t : ChunkedLayer) (ops : List Op) → SameShape s t → AllAdmissible s ops → AllAdmissible t ops
Admissible-shape s t [] e h = tt
Admissible-shape s t (op ∷ ops) e (a, h) = (by_op op a, Admissible-shape s t ops e h)
  where
    same_width : t.chunks_x * t.chunk_size ≡ s.chunks_x * s.chunk_size
    same_width = let ((p, q), _) = e in cc (p, q)

    by_op : (op : Op) → Admissible s op → Admissible t op
    by_op (setting i j v) (w, f) = (subst (λ n. i < n) (sym same_width) w, Fits-shape s t v e f)
    by_op (filling ci cj v) (w, f) =
        let ((p, _), _) = e in (subst (λ n. ci < n) (sym p) w, Fits-shape s t v e f)
    by_op (replacing ci cj values) (w, f) =
        let ((p, _), _) = e in (subst (λ n. ci < n) (sym p) w, AllFit-shape s t values e f)
    by_op (hashing ci cj) w = tt

new_fill :
    (chunks_x chunks_y chunk_size d bytes k : ℕ)
    → fill_of (new_layer chunks_x chunks_y chunk_size d bytes) k ≡ d
unfolding new_layer
new_fill chunks_x chunks_y chunk_size d bytes k =
    if_cases (λ (o : Option ℕ). (elim o [ none ↦ d | some f ↦ f ]) ≡ d)
      (ltb k (chunks_x * chunks_y)) (λ _. refl) (λ _. refl)

new_cell :
    (chunks_x chunks_y chunk_size d bytes x y : ℕ)
    → get_cell (new_layer chunks_x chunks_y chunk_size d bytes) x y ≡ d
unfolding new_layer get_cell cell_at
new_cell chunks_x chunks_y chunk_size d bytes x y =
    new_fill chunks_x chunks_y chunk_size d bytes (y / chunk_size * chunks_x + x / chunk_size)

apply_all-meaning_all :
    (xx_hash : List ℕ → ℕ) (ops : List Op) (s : ChunkedLayer)
    → IsLayer s
    → AllAdmissible s ops
    → (x y : ℕ) → x < s.chunks_x * s.chunk_size
    → get_cell (apply_all xx_hash ops s) x y ≡ meaning_all s.chunk_size ops x y (get_cell s x y)
unfolding apply_all meaning_all
apply_all-meaning_all xx_hash [] s l a x y w = refl
apply_all-meaning_all xx_hash (op ∷ ops) s l (a, later) x y w =
    let t = apply xx_hash op s in
    let ((l', e), m) = apply-Means xx_hash op s l a in
    let ((p, q), _) = e in
    let same_width : t.chunks_x * t.chunk_size ≡ s.chunks_x * s.chunk_size = cc (p, q) in
    let rest =
      apply_all-meaning_all xx_hash ops t l' (Admissible-shape s t ops e later) x y
        (subst (λ n. x < n) (sym same_width) w) in
    rest
    ∙ ap (λ c. meaning_all c ops x y (get_cell t x y)) q
    ∙ ap (meaning_all s.chunk_size ops x y) (sym (shape-get_cell s t x y e) ∙ m x y w)

pub new_layer-IsLayer :
    (chunks_x chunks_y chunk_size d bytes : ℕ)
    → 0 < chunk_size
    → Fits (new_layer chunks_x chunks_y chunk_size d bytes) d
    → IsLayer (new_layer chunks_x chunks_y chunk_size d bytes)
unfolding new_layer
new_layer-IsLayer chunks_x chunks_y chunk_size d bytes h f = (
  h,
  λ k.
      subst (λ v. v % 2 ^ (8 * bytes) ≡ v) (sym (new_fill chunks_x chunks_y chunk_size d bytes k))
        f,
)

-- A new layer of a grid, after any operations within its width whose values its cells can hold, has in
-- every cell what these operations mean, one after another, for a grid that holds the default everywhere:
-- a cell set, a chunk filled, a chunk replaced where the number of values is right, a hash asked for.
pub new_layer-meaning_all :
    (xx_hash : List ℕ → ℕ) (chunks_x chunks_y chunk_size d bytes : ℕ) (ops : List Op)
    → 0 < chunk_size
    → Fits (new_layer chunks_x chunks_y chunk_size d bytes) d
    → AllAdmissible (new_layer chunks_x chunks_y chunk_size d bytes) ops
    → (x y : ℕ) → x < chunks_x * chunk_size
    → get_cell (apply_all xx_hash ops (new_layer chunks_x chunks_y chunk_size d bytes)) x y
      ≡ meaning_all chunk_size ops x y d
unfolding new_layer
new_layer-meaning_all xx_hash chunks_x chunks_y chunk_size d bytes ops h f a x y w =
    apply_all-meaning_all xx_hash ops (new_layer chunks_x chunks_y chunk_size d bytes)
      (new_layer-IsLayer chunks_x chunks_y chunk_size d bytes h f) a x y w
    ∙ ap (meaning_all chunk_size ops x y) (new_cell chunks_x chunks_y chunk_size d bytes x y)

-- In a layer with a positive chunk size, whose chunks have all their cells or one value that a cell can
-- hold, setting a cell to a value that it can hold says that it did not change exactly where it had the value.
pub set_cell-get_cell :
    (s : ChunkedLayer) (i j v : ℕ)
    → IsLayer s
    → Fits s v
    → ((set_cell s i j v).0 ≡ false) ↔ (get_cell s i j ≡ v)
unfolding set_cell get_cell
set_cell-get_cell s i j v l f =
    let (pos, _) = l in
    let (changed, _) =
      set_at-Wrote s (index_of s i j) (offset_of s.chunk_size i j) v l
        (offset_within s.chunk_size i j pos) f in
    changed
