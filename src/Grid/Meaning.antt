-- ===== src/Grid/Meaning.antt =====
-- What each operation means for the cells of a layer.
use agentsimjs.Prelude.{
  ℕ, ◌+◌, ◌*◌, ◌/◌, ◌%◌, ◌<◌, ◌≡◌, ◌≢◌, ◌⊎◌, inl, inr, refl, sym, subst, true, false, ◌&&◌, List,
  [], ◌∷◌, Result, ok, err, ◌==◌, ==_iff, length, get_or, if◌then◌else◌, if_cases, arith,
  Bool-cases,
}
use agentsimjs.Grid.{
  ChunkedLayer, chunk_cells, chunk_index, index_of, offset_of, cell_at, get_cell, set_at, set_cell,
  fill_chunk, RangeError, set_chunk, chunk_hash,
}
use agentsimjs.Grid.Index.{chunk_within, offset_within, offset_of-row, same_cell, same_chunk}
use agentsimjs.Grid.Writes.{Fits, IsLayer, SameShape, set_at-Wrote}
use agentsimjs.Grid.Chunks.{
  Replaced, AllFit, fill_chunk-Replaced, set_chunk-Replaced, set_chunk_refuses,
}

-- The operations that may change a layer.
pub data Op : Type 0 where
  setting : ℕ → ℕ → ℕ → Op
  filling : ℕ → ℕ → ℕ → Op
  replacing : ℕ → ℕ → List ℕ → Op
  hashing : ℕ → ℕ → Op

abbrev pub or_same : ChunkedLayer → Result RangeError ChunkedLayer → ChunkedLayer
or_same s (ok t) = t
or_same s (err e) = s

unfoldable pub apply : (List ℕ → ℕ) → Op → ChunkedLayer → ChunkedLayer
apply xx_hash (setting i j v) s = (set_cell s i j v).1
apply xx_hash (filling ci cj v) s = fill_chunk s ci cj v
apply xx_hash (replacing ci cj values) s = or_same s (set_chunk s ci cj values)
apply xx_hash (hashing ci cj) s = (chunk_hash xx_hash s ci cj).1

unfoldable pub apply_all : (List ℕ → ℕ) → List Op → ChunkedLayer → ChunkedLayer
apply_all xx_hash [] s = s
apply_all xx_hash (op ∷ ops) s = apply_all xx_hash ops (apply xx_hash op s)

-- What an operation means for the cell at `x`, `y`, with chunks of `cs` by `cs` cells.
unfoldable pub meaning : ℕ → Op → ℕ → ℕ → ℕ → ℕ
meaning cs (setting i j v) x y old = if x == i && y == j then v else old
meaning cs (filling ci cj v) x y old = if x / cs == ci && y / cs == cj then v else old
meaning cs (replacing ci cj values) x y old =
    if length values == cs * cs
    then if x / cs == ci && y / cs == cj then get_or values (y % cs * cs + x % cs) 0 else old
    else old
meaning cs (hashing ci cj) x y old = old

unfoldable pub meaning_all : ℕ → List Op → ℕ → ℕ → ℕ → ℕ
meaning_all cs [] x y old = old
meaning_all cs (op ∷ ops) x y old = meaning_all cs ops x y (meaning cs op x y old)

-- Within the width of the layer, with values that its cells hold.
abbrev pub Admissible : ChunkedLayer → Op → Type 0
Admissible s (setting i j v) = (i < s.chunks_x * s.chunk_size) × Fits s v
Admissible s (filling ci cj v) = (ci < s.chunks_x) × Fits s v
Admissible s (replacing ci cj values) = (ci < s.chunks_x) × AllFit s values
Admissible s (hashing ci cj) = Unit

abbrev pub AllAdmissible : ChunkedLayer → List Op → Type 0
AllAdmissible s [] = Unit
AllAdmissible s (op ∷ ops) = Admissible s op × AllAdmissible s ops

-- One step from `s`: the layer it leaves, and every cell of it.
abbrev pub Means : ChunkedLayer → Op → ChunkedLayer → Type 0
Means s op t =
    (IsLayer t × SameShape s t)
    × ((x y : ℕ)
        → x < s.chunks_x * s.chunk_size
        → cell_at t (index_of s x y) (offset_of s.chunk_size x y)
          ≡ meaning s.chunk_size op x y (get_cell s x y))

both_false : (a b c d : ℕ) → ((a == c) && (b == d)) ≡ false → (a ≢ c) ⊎ (b ≢ d)
both_false a b c d h = ground arith

both_true : (a b c d : ℕ) → ((a == c) && (b == d)) ≡ true → (a ≡ c) × (b ≡ d)
both_true a b c d h = ground arith

same_index :
    (s : ChunkedLayer) (x y ci cj : ℕ)
    → x / s.chunk_size ≡ ci
    → y / s.chunk_size ≡ cj
    → index_of s x y ≡ chunk_index s ci cj
same_index s x y ci cj p q = cc (p, q)

other_place :
    (s : ChunkedLayer) (i j x y : ℕ)
    → 0 < s.chunk_size
    → i < s.chunks_x * s.chunk_size
    → x < s.chunks_x * s.chunk_size
    → (x == i && y == j) ≡ false
    → (index_of s x y ≢ index_of s i j) ⊎ (offset_of s.chunk_size x y ≢ offset_of s.chunk_size i j)
other_place s i j x y pos h w e = elim (Bool-cases (index_of s x y == index_of s i j)) [
  | inl m ↦
      let (to_equal, _) = ==_iff (index_of s x y) (index_of s i j) in
      inr (λ g.
        let (a, b) = same_cell s.chunk_size s.chunks_x i j x y pos h w (to_equal m) g in
        elim (both_false x y i j e) [ inl d ↦ d a | inr d ↦ d b ])
  | inr n ↦
      let (_, from_equal) = ==_iff (index_of s x y) (index_of s i j) in
      inl (λ q. cc (from_equal q, n))
]

setting-Means :
    (s : ChunkedLayer) (i j v : ℕ)
    → IsLayer s
    → i < s.chunks_x * s.chunk_size
    → Fits s v
    → Means s (setting i j v) (set_cell s i j v).1
unfolding meaning set_cell get_cell
setting-Means s i j v l h f =
    let (pos, _) = l in
    let k = index_of s i j in
    let o = offset_of s.chunk_size i j in
    let (_, (shape, (hit, miss))) = set_at-Wrote s k o v l (offset_within s.chunk_size i j pos) f in
    (
      shape,
      λ x y w.
          if_cases
            (λ c. cell_at (set_at s k o v).1 (index_of s x y) (offset_of s.chunk_size x y) ≡ c)
            (x == i && y == j)
            (λ e.
              let (p, q) = both_true x y i j e in
              let t = (set_at s k o v).1 in
              subst (λ z. cell_at t (index_of s z y) (offset_of s.chunk_size z y) ≡ v) (sym p)
                (subst (λ z. cell_at t (index_of s i z) (offset_of s.chunk_size i z) ≡ v) (sym q)
                  hit))
            (λ e.
              miss (index_of s x y) (offset_of s.chunk_size x y)
                (offset_within s.chunk_size x y pos) (other_place s i j x y pos h w e)),
    )

Replaced-Means :
    (s : ChunkedLayer) (ci cj : ℕ) (cells : ℕ → ℕ) (t : ChunkedLayer) (x y : ℕ)
    → 0 < s.chunk_size
    → ci < s.chunks_x
    → x < s.chunks_x * s.chunk_size
    → Replaced s (chunk_index s ci cj) cells t
    → cell_at t (index_of s x y) (offset_of s.chunk_size x y) ≡ (
        if x / s.chunk_size == ci && y / s.chunk_size == cj
        then cells (offset_of s.chunk_size x y)
        else get_cell s x y)
unfolding get_cell
Replaced-Means s ci cj cells t x y pos h w (shape, (here, there)) =
    if_cases (λ c. cell_at t (index_of s x y) (offset_of s.chunk_size x y) ≡ c)
      (x / s.chunk_size == ci && y / s.chunk_size == cj)
      (λ e.
        let (p, q) = both_true (x / s.chunk_size) (y / s.chunk_size) ci cj e in
        subst (λ k. cell_at t k (offset_of s.chunk_size x y) ≡ cells (offset_of s.chunk_size x y))
          (sym (same_index s x y ci cj p q))
          (here (offset_of s.chunk_size x y) (offset_within s.chunk_size x y pos)))
      (λ e. there (index_of s x y) (offset_of s.chunk_size x y) (λ r.
        let (a, b) =
          same_chunk s.chunks_x ci cj (x / s.chunk_size) (y / s.chunk_size) h
            (chunk_within x s.chunk_size s.chunks_x pos w) r in
        elim (both_false (x / s.chunk_size) (y / s.chunk_size) ci cj e) [
          | inl d ↦ d a
          | inr d ↦ d b
        ]))

filling-Means :
    (s : ChunkedLayer) (ci cj v : ℕ)
    → IsLayer s
    → ci < s.chunks_x
    → Fits s v
    → Means s (filling ci cj v) (fill_chunk s ci cj v)
unfolding meaning
filling-Means s ci cj v l h f =
    let (pos, _) = l in
    let r = fill_chunk-Replaced s ci cj v l f in
    let (shape, _) = r in
    (shape, λ x y w. Replaced-Means s ci cj (λ _. v) (fill_chunk s ci cj v) x y pos h w r)

cell_at-get_cell :
    (s : ChunkedLayer) (x y : ℕ)
    → cell_at s (index_of s x y) (offset_of s.chunk_size x y) ≡ get_cell s x y
unfolding get_cell
cell_at-get_cell s x y = refl

replacing-Means :
    (s : ChunkedLayer) (ci cj : ℕ) (values : List ℕ)
    → IsLayer s
    → ci < s.chunks_x
    → AllFit s values
    → Means s (replacing ci cj values) (or_same s (set_chunk s ci cj values))
unfolding meaning
replacing-Means s ci cj values l h f = elim (Bool-cases (length values == chunk_cells s)) [
  | inl e ↦
      let (pos, _) = l in
      let (to_equal, _) = ==_iff (length values) (chunk_cells s) in
      let (t, (q, r)) = set_chunk-Replaced s ci cj values l f (to_equal e) in
      let (shape, _) = r in
      subst (λ o. Means s (replacing ci cj values) (or_same s o)) (sym q)
        (
          shape,
          λ x y w.
              rw (e, meaning)
                (rw⁻¹ (offset_of-row s.chunk_size x y pos)
                  (Replaced-Means s ci cj (λ o. get_or values o 0) t x y pos h w r)),
        )
  | inr e ↦
      let (_, from_equal) = ==_iff (length values) (chunk_cells s) in
      subst (λ o. Means s (replacing ci cj values) (or_same s o))
        (sym (set_chunk_refuses s ci cj values (λ n. cc (from_equal n, e))))
        ((l, ((refl, refl), (refl, refl))), λ x y w. rw (e, meaning) (cell_at-get_cell s x y))
]

hashing-Means :
    (xx_hash : List ℕ → ℕ) (s : ChunkedLayer) (ci cj : ℕ)
    → IsLayer s
    → Means s (hashing ci cj) (chunk_hash xx_hash s ci cj).1
unfolding meaning chunk_hash get_cell cell_at
hashing-Means xx_hash s ci cj l =
    if_cases (λ (r : ℕ × ChunkedLayer). Means s (hashing ci cj) r.1)
      (s.hash_valid (chunk_index s ci cj)) (λ _. ((l, ((refl, refl), (refl, refl))), λ x y w. refl))
      (λ _. ((l, ((refl, refl), (refl, refl))), λ x y w. refl))

pub apply-Means :
    (xx_hash : List ℕ → ℕ) (op : Op) (s : ChunkedLayer)
    → IsLayer s
    → Admissible s op
    → Means s op (apply xx_hash op s)
unfolding apply
apply-Means xx_hash (setting i j v) s l (h, f) = setting-Means s i j v l h f
apply-Means xx_hash (filling ci cj v) s l (h, f) = filling-Means s ci cj v l h f
apply-Means xx_hash (replacing ci cj values) s l (h, f) = replacing-Means s ci cj values l h f
apply-Means xx_hash (hashing ci cj) s l h = hashing-Means xx_hash s ci cj l
