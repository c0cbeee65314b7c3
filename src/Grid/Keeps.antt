-- ===== src/Grid/Keeps.antt =====
-- What each operation keeps of the hashes still marked valid.
use agentsimjs.Prelude.{
  ℕ, zero, suc, ◌≡◌, inl, inr, refl, sym, ap, ◌∙◌, subst, Bool, true, false, not, List, [], ◌∷◌,
  map, Option, none, some, Result, ◌==◌, ==_iff, length, get_elem?, get_or, set, replicate,
  length-replicate, if◌then◌else◌, if_cases, arith, Bool-cases, Option-cases,
}
use agentsimjs.Grid.{
  ChunkedLayer, wrap, chunk_cells, update, chunk_index, fill_of, has_value, write_cell, set_at,
  fill_chunk, all_equal, RangeError, set_chunk, cells_from, read_at,
}
use agentsimjs.Grid.Writes.{Fits, ChunkFits, set_at-none, set_at-some}
use agentsimjs.Grid.Chunks.{filled, fill_of_there}
use agentsimjs.Grid.Meaning.{or_same}

cells_from_shift : (n i x : ℕ) (xs : List ℕ) → cells_from n (suc i) (x ∷ xs) ≡ cells_from n i xs
unfolding cells_from
cells_from_shift zero i x xs = refl
cells_from_shift (suc n) i x xs = ap (λ ys. get_or xs i 0 ∷ ys) (cells_from_shift n (suc i) x xs)

pub cells_from_all : (xs : List ℕ) (n : ℕ) → length xs ≡ n → cells_from n 0 xs ≡ xs
unfolding cells_from
cells_from_all [] zero h = refl
cells_from_all [] (suc n) h = absurd (omega arith)
cells_from_all (x ∷ xs) zero h = absurd (omega arith)
cells_from_all (x ∷ xs) (suc n) h =
    ap (λ ys. x ∷ ys) (cells_from_shift n 0 x xs ∙ cells_from_all xs n (omega arith))

-- Each hash still marked valid in `t` was so in `s`, for the same cells.
abbrev pub Keeps : ChunkedLayer → ChunkedLayer → Type 0
Keeps s t =
    (t.bytes_per_element ≡ s.bytes_per_element)
    × ((k : ℕ)
        → t.hash_valid k ≡ true
        → (s.hash_valid k ≡ true) × ((t.hash_at k ≡ s.hash_at k) × (read_at t k ≡ read_at s k)))

still_valid :
    (s : ChunkedLayer) (k k' : ℕ)
    → update s.hash_valid k false k' ≡ true
    → ((k' == k) ≡ false) × (s.hash_valid k' ≡ true)
still_valid s k k' e = elim (Bool-cases (k' == k)) [
  | inl q ↦ absurd (cc (subst (λ b. (if b then false else s.hash_valid k') ≡ true) q e))
  | inr q ↦ (q, subst (λ b. (if b then false else s.hash_valid k') ≡ true) q e)
]

read_at_there :
    (s : ChunkedLayer) (k k' : ℕ) (arr : List ℕ) (valid : ℕ → Bool)
    → (k' == k) ≡ false
    → read_at (record s { data_at = update s.data_at k (some arr); hash_valid = valid }) k'
      ≡ read_at s k'
unfolding read_at
read_at_there s k k' arr valid q = rw (q, read_at) refl

pub read_at_here :
    (s : ChunkedLayer) (k k' : ℕ) (arr : List ℕ) (valid : ℕ → Bool)
    → (k' == k) ≡ true
    → read_at (record s { data_at = update s.data_at k (some arr); hash_valid = valid }) k'
      ≡ cells_from (chunk_cells s) 0 arr
unfolding read_at
read_at_here s k k' arr valid q = rw (q, read_at) refl

replaced-Keeps :
    (s : ChunkedLayer) (k : ℕ) (arr : List ℕ)
    → Keeps s (record s {
      data_at = update s.data_at k (some arr);
      hash_valid = update s.hash_valid k false;
    })
replaced-Keeps s k arr = (
  refl,
  λ k' e.
      let (q, v) = still_valid s k k' e in
      (v, (refl, read_at_there s k k' arr (update s.hash_valid k false) q)),
)

filled_read :
    (s : ChunkedLayer) (k k' v : ℕ) → (k' == k) ≡ false → read_at (filled s k v) k' ≡ read_at s k'
unfolding read_at
filled_read s k k' v q =
    rw (q, read_at)
      (by_data (s.data_at k') (ap (replicate (chunk_cells s)) (fill_of_there s k k' v q)))
  where
    by_data :
        (d : Option (List ℕ))
        → replicate (chunk_cells s) (fill_of (filled s k v) k')
          ≡ replicate (chunk_cells s) (fill_of s k')
        → (elim d [
          | none ↦ replicate (chunk_cells s) (fill_of (filled s k v) k')
          | some arr ↦ cells_from (chunk_cells s) 0 arr
        ])
          ≡ (elim d [
            | none ↦ replicate (chunk_cells s) (fill_of s k')
            | some arr ↦ cells_from (chunk_cells s) 0 arr
          ])
    by_data none h = h
    by_data (some arr) h = refl

pub fill_chunk-Keeps : (s : ChunkedLayer) (ci cj v : ℕ) → Keeps s (fill_chunk s ci cj v)
unfolding fill_chunk
fill_chunk-Keeps s ci cj v =
    let k = chunk_index s ci cj in
    (refl, λ k' e. let (q, w) = still_valid s k k' e in (w, (refl, filled_read s k k' v q)))

pub set_chunk-Keeps :
    (s : ChunkedLayer) (ci cj : ℕ) (values : List ℕ)
    → Keeps s (or_same s (set_chunk s ci cj values))
unfolding set_chunk
set_chunk-Keeps s ci cj values =
    if_cases (λ (r : Result RangeError ChunkedLayer). Keeps s (or_same s r))
      (not (length values == chunk_cells s)) (λ _. (refl, λ k e. (e, (refl, refl))))
      (λ _.
        if_cases (λ (r : Result RangeError ChunkedLayer). Keeps s (or_same s r))
          (all_equal (get_or values 0 0) values) (λ _. fill_chunk-Keeps s ci cj (get_or values 0 0))
          (λ _. replaced-Keeps s (chunk_index s ci cj) (map (wrap s) values)))

write_cell-Keeps :
    (s : ChunkedLayer) (k o v : ℕ) (arr : List ℕ)
    → cells_from (chunk_cells s) 0 arr ≡ read_at s k
    → Keeps s (write_cell arr s k o v).1
unfolding write_cell
write_cell-Keeps s k o v arr h =
    if_cases (λ (r : Bool × ChunkedLayer). Keeps s r.1) (has_value (get_elem? arr o) v)
      (λ _. (refl, λ k' e. (e, (refl, same k')))) (λ _. replaced-Keeps s k (set arr o (wrap s v)))
  where
    same :
        (k' : ℕ)
        → read_at
            (record s { data_at = update s.data_at k (some arr); hash_valid = s.hash_valid })
            k'
          ≡ read_at s k'
    same k' = elim (Bool-cases (k' == k)) [
      | inl q ↦
          let (to_equal, _) = ==_iff k' k in
          read_at_here s k k' arr s.hash_valid q ∙ h ∙ ap (read_at s) (sym (to_equal q))
      | inr q ↦ read_at_there s k k' arr s.hash_valid q
    ]

read_at-none :
    (s : ChunkedLayer) (k : ℕ)
    → s.data_at k ≡ none
    → read_at s k ≡ replicate (chunk_cells s) (fill_of s k)
unfolding read_at
read_at-none s k e = rw (e, read_at) refl

read_at-some :
    (s : ChunkedLayer) (k : ℕ) (arr : List ℕ)
    → s.data_at k ≡ some arr
    → read_at s k ≡ cells_from (chunk_cells s) 0 arr
unfolding read_at
read_at-some s k arr e = rw (e, read_at) refl

pub set_at-Keeps :
    (s : ChunkedLayer) (k o v : ℕ) → ChunkFits s k (s.data_at k) → Keeps s (set_at s k o v).1
set_at-Keeps s k o v f = elim (Option-cases (s.data_at k)) [
  | inl e ↦
      let fits : Fits s (fill_of s k) = subst (ChunkFits s k) e f in
      let n = chunk_cells s in
      let w = wrap s (fill_of s k) in
      subst (λ (r : Bool × ChunkedLayer). Keeps s r.1) (sym (set_at-none s k o v e))
        (if_cases (λ (r : Bool × ChunkedLayer). Keeps s r.1) (fill_of s k == v)
          (λ _. (refl, λ k' h. (h, (refl, refl))))
          (λ _. write_cell-Keeps s k o v (replicate n w) (
            cells_from_all (replicate n w) n (length-replicate n w)
            ∙ ap (replicate n) fits
            ∙ sym (read_at-none s k e))))
  | inr (arr, e) ↦
      subst (λ (r : Bool × ChunkedLayer). Keeps s r.1) (sym (set_at-some s k o v arr e))
        (write_cell-Keeps s k o v arr (sym (read_at-some s k arr e)))
]
