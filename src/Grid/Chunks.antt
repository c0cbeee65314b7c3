-- ===== src/Grid/Chunks.antt =====
-- What replacing a whole chunk does to every cell of a layer.
use agentsimjs.Prelude.{
  ℕ, zero, suc, ◌<◌, ◌≡◌, ◌≢◌, inl, inr, refl, sym, ap, ◌∙◌, subst, true, false, and_true, List, [],
  ◌∷◌, map, Option, none, some, ok, err, ◌==◌, ==_iff, ==_refl, length, get_or, if_cases, arith,
  Bool-cases,
}
use agentsimjs.Grid.{
  ChunkedLayer, wrap, chunk_cells, update, chunk_index, fill_of, cell_at, fill_chunk, all_equal,
  wrong_length, set_chunk,
}
use agentsimjs.Grid.Writes.{
  Fits, ChunkFits, IsLayer, SameShape, ne→==_false, cell_at_here, cell_at_there, data-IsLayer,
}

-- Chunk `k` has the cells that `cells` says, and the others are as they were.
abbrev pub Replaced : ChunkedLayer → ℕ → (ℕ → ℕ) → ChunkedLayer → Type 0
Replaced s k cells t =
    (IsLayer t × SameShape s t)
    × (((o : ℕ) → o < chunk_cells s → cell_at t k o ≡ cells o)
        × ((k' o : ℕ) → k' ≢ k → cell_at t k' o ≡ cell_at s k' o))

abbrev pub filled : ChunkedLayer → ℕ → ℕ → ChunkedLayer
filled s k v = record s {
  data_at = update s.data_at k none;
  fill_at = update s.fill_at k (some v);
  hash_valid = update s.hash_valid k false;
}

pub fill_of_here :
    (s : ChunkedLayer) (k k' v : ℕ) → (k' == k) ≡ true → fill_of (filled s k v) k' ≡ v
fill_of_here s k k' v e = rw (e, fill_of) refl

pub fill_of_there :
    (s : ChunkedLayer) (k k' v : ℕ) → (k' == k) ≡ false → fill_of (filled s k v) k' ≡ fill_of s k'
fill_of_there s k k' v e = rw (e, fill_of) refl

filled_here : (s : ChunkedLayer) (k o v : ℕ) → cell_at (filled s k v) k o ≡ v
unfolding cell_at
filled_here s k o v = rw (==_refl k, cell_at) (fill_of_here s k k v (==_refl k))

filled_there :
    (s : ChunkedLayer) (k k' o v : ℕ) → k' ≢ k → cell_at (filled s k v) k' o ≡ cell_at s k' o
unfolding cell_at
filled_there s k k' o v h =
    let e = ne→==_false k' k h in
    rw (e, cell_at) (by_data (s.data_at k') (fill_of_there s k k' v e))
  where
    by_data :
        (d : Option (List ℕ))
        → fill_of (filled s k v) k' ≡ fill_of s k'
        → (elim d [ none ↦ fill_of (filled s k v) k' | some arr ↦ get_or arr o s.default_value ])
          ≡ (elim d [ none ↦ fill_of s k' | some arr ↦ get_or arr o s.default_value ])
    by_data none q = q
    by_data (some arr) q = refl

filled-ChunkFits_there :
    (s : ChunkedLayer) (k v k' : ℕ) (o : Option (List ℕ))
    → (k' == k) ≡ false
    → ChunkFits s k' o
    → ChunkFits (filled s k v) k' o
filled-ChunkFits_there s k v k' none e h = subst (Fits s) (sym (fill_of_there s k k' v e)) h
filled-ChunkFits_there s k v k' (some arr) e h = h

filled-ChunkFits :
    (s : ChunkedLayer) (k v k' : ℕ)
    → Fits s v
    → ChunkFits s k' (s.data_at k')
    → ChunkFits (filled s k v) k' (update s.data_at k none k')
filled-ChunkFits s k v k' f h =
    if_cases (ChunkFits (filled s k v) k') (k' == k)
      (λ e. subst (Fits s) (sym (fill_of_here s k k' v e)) f)
      (λ e. filled-ChunkFits_there s k v k' (s.data_at k') e h)

pub fill_chunk-Replaced :
    (s : ChunkedLayer) (ci cj v : ℕ)
    → IsLayer s
    → Fits s v
    → Replaced s (chunk_index s ci cj) (λ _. v) (fill_chunk s ci cj v)
unfolding fill_chunk
fill_chunk-Replaced s ci cj v (pos, fits) f =
    let k = chunk_index s ci cj in
    (
      ((pos, λ k'. filled-ChunkFits s k v k' f (fits k')), ((refl, refl), (refl, refl))),
      (λ o _. filled_here s k o v, λ k' o h. filled_there s k k' o v h),
    )

abbrev pub AllFit : ChunkedLayer → List ℕ → Type 0
AllFit s [] = Unit
AllFit s (v ∷ vs) = Fits s v × AllFit s vs

all_equal-get_or :
    (v : ℕ) (ws : List ℕ) (o d : ℕ) → all_equal v ws ≡ true → o < length ws → v ≡ get_or ws o d
unfolding all_equal
all_equal-get_or v [] o d e h = absurd (omega arith)
all_equal-get_or v (w ∷ ws) zero d e h =
    let (p, _) = and_true (w == v) (all_equal v ws) e in
    let (to_equal, _) = ==_iff w v in sym (to_equal p)
all_equal-get_or v (w ∷ ws) (suc o) d e h =
    let (_, q) = and_true (w == v) (all_equal v ws) e in all_equal-get_or v ws o d q (omega arith)

map-wrap-get_or :
    (s : ChunkedLayer) (ws : List ℕ) (o d e : ℕ)
    → AllFit s ws
    → o < length ws
    → get_or (map (wrap s) ws) o d ≡ get_or ws o e
map-wrap-get_or s [] o d e f h = absurd (omega arith)
map-wrap-get_or s (w ∷ ws) zero d e (f, _) h = f
map-wrap-get_or s (w ∷ ws) (suc o) d e (_, f) h = map-wrap-get_or s ws o d e f (omega arith)

pub length-map-wrap : (s : ChunkedLayer) (ws : List ℕ) → length (map (wrap s) ws) ≡ length ws
length-map-wrap s [] = refl
length-map-wrap s (w ∷ ws) = ap suc (length-map-wrap s ws)

first-Fits : (s : ChunkedLayer) (ws : List ℕ) → AllFit s ws → Fits s (get_or ws 0 0)
first-Fits s [] f = omega arith
first-Fits s (w ∷ ws) (f, _) = f

abbrev pub mixed : ChunkedLayer → ℕ → List ℕ → ChunkedLayer
mixed s k values = record s {
  data_at = update s.data_at k (some (map (wrap s) values));
  hash_valid = update s.hash_valid k false;
}

pub set_chunk_uniform :
    (s : ChunkedLayer) (ci cj : ℕ) (values : List ℕ)
    → length values ≡ chunk_cells s
    → all_equal (get_or values 0 0) values ≡ true
    → set_chunk s ci cj values ≡ ok (fill_chunk s ci cj (get_or values 0 0))
unfolding set_chunk
set_chunk_uniform s ci cj values n e =
    let m : (length values == chunk_cells s) ≡ true =
      let (_, f) = ==_iff (length values) (chunk_cells s) in f n in
    rw (m, e) refl

pub set_chunk-mixed :
    (s : ChunkedLayer) (ci cj : ℕ) (values : List ℕ)
    → length values ≡ chunk_cells s
    → all_equal (get_or values 0 0) values ≡ false
    → set_chunk s ci cj values ≡ ok (mixed s (chunk_index s ci cj) values)
unfolding set_chunk
set_chunk-mixed s ci cj values n e =
    let m : (length values == chunk_cells s) ≡ true =
      let (_, f) = ==_iff (length values) (chunk_cells s) in f n in
    rw (m, e) refl

mixed-Replaced :
    (s : ChunkedLayer) (k : ℕ) (values : List ℕ)
    → IsLayer s
    → AllFit s values
    → length values ≡ chunk_cells s
    → Replaced s k (λ o. get_or values o 0) (mixed s k values)
mixed-Replaced s k values l f n =
    let arr = map (wrap s) values in
    let valid = update s.hash_valid k false in
    (
      (data-IsLayer s k arr valid l (length-map-wrap s values ∙ n), ((refl, refl), (refl, refl))),
      (
        λ o h.
            cell_at_here s k o arr valid
            ∙ map-wrap-get_or s values o s.default_value 0 f (subst (λ x. o < x) (sym n) h),
        λ k' o h. cell_at_there s k k' o (some arr) valid h,
      ),
    )

pub set_chunk-Replaced :
    (s : ChunkedLayer) (ci cj : ℕ) (values : List ℕ)
    → IsLayer s
    → AllFit s values
    → length values ≡ chunk_cells s
    → (t : ChunkedLayer) × ((set_chunk s ci cj values ≡ ok t)
        × Replaced s (chunk_index s ci cj) (λ o. get_or values o 0) t)
set_chunk-Replaced s ci cj values l f n = elim (Bool-cases (all_equal (get_or values 0 0) values)) [
  | inl e ↦
      let (shape, (here, there)) =
        fill_chunk-Replaced s ci cj (get_or values 0 0) l (first-Fits s values f) in
      (
        fill_chunk s ci cj (get_or values 0 0),
        (
          set_chunk_uniform s ci cj values n e,
          (
            shape,
            (
              λ o h.
                  here o h
                  ∙ all_equal-get_or (get_or values 0 0) values o 0 e
                      (subst (λ x. o < x) (sym n) h),
              there,
            ),
          ),
        ),
      )
  | inr e ↦
      let k = chunk_index s ci cj in
      (mixed s k values, (set_chunk-mixed s ci cj values n e, mixed-Replaced s k values l f n))
]

pub set_chunk_refuses :
    (s : ChunkedLayer) (ci cj : ℕ) (values : List ℕ)
    → length values ≢ chunk_cells s
    → set_chunk s ci cj values ≡ err wrong_length
unfolding set_chunk
set_chunk_refuses s ci cj values h = rw (ne→==_false (length values) (chunk_cells s) h) refl
