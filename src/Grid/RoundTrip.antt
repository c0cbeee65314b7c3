-- ===== src/Grid/RoundTrip.antt =====
-- The cells that a chunk is given are those read from it.
use agentsimjs.Prelude.{
  ℕ, zero, suc, ◌≡◌, refl, ap, ◌∙◌, true, false, and_true, List, [], ◌∷◌, map, ok, ◌==◌, ==_iff,
  ==_refl, length, get_or, replicate, arith, inl, inr, Bool-cases,
}
use agentsimjs.Grid.{
  ChunkedLayer, wrap, chunk_cells, update, chunk_index, fill_chunk, all_equal, set_chunk, read_at,
  read_chunk,
}
use agentsimjs.Grid.Chunks.{
  AllFit, filled, mixed, set_chunk_uniform, set_chunk-mixed, length-map-wrap, fill_of_here,
}
use agentsimjs.Grid.Keeps.{cells_from_all, read_at_here}

map-wrap_all : (s : ChunkedLayer) (ws : List ℕ) → AllFit s ws → map (wrap s) ws ≡ ws
map-wrap_all s [] f = refl
map-wrap_all s (w ∷ ws) (f, g) = cc (f, map-wrap_all s ws g)

all_equal-replicate :
    (v n : ℕ) (ws : List ℕ) → all_equal v ws ≡ true → length ws ≡ n → replicate n v ≡ ws
unfolding all_equal
all_equal-replicate v zero [] e h = refl
all_equal-replicate v (suc n) [] e h = absurd (omega arith)
all_equal-replicate v zero (w ∷ ws) e h = absurd (omega arith)
all_equal-replicate v (suc n) (w ∷ ws) e h =
    let (p, q) = and_true (w == v) (all_equal v ws) e in
    let (to_equal, _) = ==_iff w v in
    let r = all_equal-replicate v n ws q (omega arith) in let s = to_equal p in cc (r, s)

filled-read_at :
    (s : ChunkedLayer) (k v : ℕ) → read_at (filled s k v) k ≡ replicate (chunk_cells s) v
unfolding read_at
filled-read_at s k v =
    rw (==_refl k, read_at) (ap (replicate (chunk_cells s)) (fill_of_here s k k v (==_refl k)))

-- A chunk that is given as many values as it has cells, each of which a cell can hold, is read back as
-- given, whether it is stored as one value or as an array.
pub read_chunk-set_chunk :
    (s : ChunkedLayer) (ci cj : ℕ) (values : List ℕ)
    → AllFit s values
    → length values ≡ chunk_cells s
    → (t : ChunkedLayer) × ((set_chunk s ci cj values ≡ ok t) × (read_chunk t ci cj ≡ values))
unfolding read_chunk fill_chunk
read_chunk-set_chunk s ci cj values f n =
    let k = chunk_index s ci cj in
    let first = get_or values 0 0 in
    elim (Bool-cases (all_equal first values)) [
      | inl e ↦ (
        filled s k first,
        (
          set_chunk_uniform s ci cj values n e,
          filled-read_at s k first ∙ all_equal-replicate first (chunk_cells s) values e n,
        ),
      )
      | inr e ↦ (
        mixed s k values,
        (
          set_chunk-mixed s ci cj values n e,
          read_at_here s k k (map (wrap s) values) (update s.hash_valid k false) (==_refl k)
              ∙ cells_from_all (map (wrap s) values) (chunk_cells s) (length-map-wrap s values ∙ n)
              ∙ map-wrap_all s values f,
        ),
      )
    ]
