-- ===== src/Grid/Writes.antt =====
-- What a write of one cell does to every cell of a layer.
use agentsimjs.Prelude.{
  ℕ, zero, suc, ◌<◌, ◌≡◌, ◌≢◌, ◌↔◌, ◌⊎◌, inl, inr, refl, sym, ◌∙◌, subst, Bool, true, false, List,
  [], ◌∷◌, Option, none, some, ◌==◌, ==_iff, ==_refl, length, get_elem?, get_or, set, replicate,
  if◌then◌else◌, if_cases, arith, Bool-cases, Option-cases, get_or-set_self, get_or-set_ne,
  get_or-replicate, length-set, length-replicate,
}
use agentsimjs.Grid.{
  ChunkedLayer, wrap, chunk_cells, update, fill_of, cell_at, has_value, write_cell, set_at,
}

-- A number that a cell of the layer holds as it is.
abbrev pub Fits : ChunkedLayer → ℕ → Type 0
Fits s v = wrap s v ≡ v

abbrev pub ChunkFits : ChunkedLayer → ℕ → Option (List ℕ) → Type 0
ChunkFits s k none = Fits s (fill_of s k)
ChunkFits s k (some arr) = length arr ≡ chunk_cells s

-- Each chunk has all its cells, or one value that fits.
abbrev pub IsLayer : ChunkedLayer → Type 0
IsLayer s = (0 < s.chunk_size) × ((k : ℕ) → ChunkFits s k (s.data_at k))

abbrev pub SameShape : ChunkedLayer → ChunkedLayer → Type 0
SameShape s t =
    ((t.chunks_x ≡ s.chunks_x) × (t.chunk_size ≡ s.chunk_size))
    × ((t.default_value ≡ s.default_value) × (t.bytes_per_element ≡ s.bytes_per_element))

-- A write of `v` at place `o` of chunk `k`: whether it changed the value, and what it leaves.
abbrev pub Wrote : ChunkedLayer → ℕ → ℕ → ℕ → Bool × ChunkedLayer → Type 0
Wrote s k o v (b, t) =
    ((b ≡ false) ↔ (cell_at s k o ≡ v))
    × ((IsLayer t × SameShape s t)
        × ((cell_at t k o ≡ v)
            × ((k' o' : ℕ)
                → o' < chunk_cells s
                → (k' ≢ k) ⊎ (o' ≢ o)
                → cell_at t k' o' ≡ cell_at s k' o')))

pub ne→==_false : (a b : ℕ) → a ≢ b → (a == b) ≡ false
ne→==_false a b h = ground arith

has_value-get_or :
    (xs : List ℕ) (i v d : ℕ) → i < length xs → has_value (get_elem? xs i) v ≡ (get_or xs i d == v)
has_value-get_or [] i v d h = absurd (omega arith)
has_value-get_or (x ∷ xs) zero v d h = refl
has_value-get_or (x ∷ xs) (suc i) v d h = has_value-get_or xs i v d (omega arith)

pub data-IsLayer :
    (s : ChunkedLayer) (k : ℕ) (arr : List ℕ) (valid : ℕ → Bool)
    → IsLayer s
    → length arr ≡ chunk_cells s
    → IsLayer (record s { data_at = update s.data_at k (some arr); hash_valid = valid })
data-IsLayer s k arr valid (pos, fits) h =
    (pos, λ k'. if_cases (ChunkFits s k') (k' == k) (λ _. h) (λ _. fits k'))

pub cell_at_here :
    (s : ChunkedLayer) (k o : ℕ) (arr : List ℕ) (valid : ℕ → Bool)
    → cell_at (record s { data_at = update s.data_at k (some arr); hash_valid = valid }) k o
      ≡ get_or arr o s.default_value
unfolding cell_at
cell_at_here s k o arr valid = rw (==_refl k, cell_at) refl

pub cell_at_there :
    (s : ChunkedLayer) (k k' o : ℕ) (arr : Option (List ℕ)) (valid : ℕ → Bool)
    → k' ≢ k
    → cell_at (record s { data_at = update s.data_at k arr; hash_valid = valid }) k' o
      ≡ cell_at s k' o
unfolding cell_at
cell_at_there s k k' o arr valid h = rw (ne→==_false k' k h, cell_at) refl

array-Wrote :
    (s : ChunkedLayer) (k o v : ℕ) (arr : List ℕ) (b : Bool) (valid : ℕ → Bool)
    → IsLayer s
    → length arr ≡ chunk_cells s
    → get_or arr o s.default_value ≡ v
    → ((o' : ℕ) → o' < chunk_cells s → o' ≢ o → get_or arr o' s.default_value ≡ cell_at s k o')
    → ((b ≡ false) ↔ (cell_at s k o ≡ v))
    → Wrote s k o v (b, record s { data_at = update s.data_at k (some arr); hash_valid = valid })
array-Wrote s k o v arr b valid l n hit miss changed = (
  changed,
  (
    (data-IsLayer s k arr valid l n, ((refl, refl), (refl, refl))),
    (cell_at_here s k o arr valid ∙ hit, others),
  ),
)
  where
    others :
        (k' o' : ℕ)
        → o' < chunk_cells s
        → (k' ≢ k) ⊎ (o' ≢ o)
        → cell_at (record s { data_at = update s.data_at k (some arr); hash_valid = valid }) k' o'
          ≡ cell_at s k' o'
    others k' o' h (inl d) = cell_at_there s k k' o' (some arr) valid d
    others k' o' h (inr d) = elim (Bool-cases (k' == k)) [
      | inl e ↦
          let (to_equal, _) = ==_iff k' k in
          subst
            (λ c.
              cell_at (record s { data_at = update s.data_at k (some arr); hash_valid = valid }) c
                o'
              ≡ cell_at s c o')
            (sym (to_equal e)) (cell_at_here s k o' arr valid ∙ miss o' h d)
      | inr e ↦
          cell_at_there s k k' o' (some arr) valid
            (λ q. let (_, from_equal) = ==_iff k' k in cc (from_equal q, e))
    ]

-- The chunk's cells are those of `arr`.
write_cell-Wrote :
    (s : ChunkedLayer) (k o v : ℕ) (arr : List ℕ)
    → IsLayer s
    → length arr ≡ chunk_cells s
    → ((o' : ℕ) → o' < chunk_cells s → get_or arr o' s.default_value ≡ cell_at s k o')
    → o < chunk_cells s
    → Fits s v
    → Wrote s k o v (write_cell arr s k o v)
unfolding write_cell cell_at
write_cell-Wrote s k o v arr l n same h f =
    if_cases (Wrote s k o v) (has_value (get_elem? arr o) v)
      (λ e.
        let at_o = holds e in
        array-Wrote s k o v arr false s.hash_valid l n at_o (λ o' h' _. same o' h')
          (λ _. sym (same o h) ∙ at_o, λ _. refl))
      (λ e.
        array-Wrote s k o v (set arr o (wrap s v)) true (update s.hash_valid k false) l
          (length-set arr o (wrap s v) ∙ n)
          (get_or-set_self arr o (wrap s v) s.default_value in_range ∙ f)
          (λ o' h' d.
            get_or-set_ne arr o o' (wrap s v) s.default_value (λ q. d (sym q)) ∙ same o' h')
          (λ q. cc q, λ q. absurd (differs e (same o h ∙ q))))
  where
    in_range : o < length arr
    in_range = subst (λ x. o < x) (sym n) h

    holds : has_value (get_elem? arr o) v ≡ true → get_or arr o s.default_value ≡ v
    holds e =
        let (to_equal, _) = ==_iff (get_or arr o s.default_value) v in
        to_equal (sym (has_value-get_or arr o v s.default_value in_range) ∙ e)

    differs : has_value (get_elem? arr o) v ≡ false → get_or arr o s.default_value ≡ v → ⊥
    differs e q =
        let (_, from_equal) = ==_iff (get_or arr o s.default_value) v in
        cc (from_equal q, has_value-get_or arr o v s.default_value in_range, e)

pub set_at-none :
    (s : ChunkedLayer) (k o v : ℕ)
    → s.data_at k ≡ none
    → set_at s k o v ≡ (
        if fill_of s k == v
        then (false, s)
        else write_cell (replicate (chunk_cells s) (wrap s (fill_of s k))) s k o v)
unfolding set_at
set_at-none s k o v e = rw (e, set_at) refl

pub set_at-some :
    (s : ChunkedLayer) (k o v : ℕ) (arr : List ℕ)
    → s.data_at k ≡ some arr
    → set_at s k o v ≡ write_cell arr s k o v
unfolding set_at
set_at-some s k o v arr e = rw (e, set_at) refl

cell_at-none : (s : ChunkedLayer) (k o : ℕ) → s.data_at k ≡ none → cell_at s k o ≡ fill_of s k
unfolding cell_at
cell_at-none s k o e = rw (e, cell_at) refl

cell_at-some :
    (s : ChunkedLayer) (k o : ℕ) (arr : List ℕ)
    → s.data_at k ≡ some arr
    → cell_at s k o ≡ get_or arr o s.default_value
unfolding cell_at
cell_at-some s k o arr e = rw (e, cell_at) refl

pub set_at-Wrote :
    (s : ChunkedLayer) (k o v : ℕ)
    → IsLayer s
    → o < chunk_cells s
    → Fits s v
    → Wrote s k o v (set_at s k o v)
set_at-Wrote s k o v l h f = elim (Option-cases (s.data_at k)) [
  | inl e ↦
      let (_, all_fit) = l in
      let fill_fits : Fits s (fill_of s k) = subst (ChunkFits s k) e (all_fit k) in
      let n = chunk_cells s in
      let w = wrap s (fill_of s k) in
      subst (Wrote s k o v) (sym (set_at-none s k o v e)) (
        if_cases (Wrote s k o v) (fill_of s k == v)
          (λ t.
            let (to_equal, _) = ==_iff (fill_of s k) v in
            let c = cell_at-none s k o e ∙ to_equal t in
            ((λ _. c, λ _. refl), ((l, ((refl, refl), (refl, refl))), (c, λ k' o' _ _. refl))))
          (λ _.
            write_cell-Wrote s k o v (replicate n w) l (length-replicate n w)
              (λ o' h'.
                get_or-replicate n o' w s.default_value h'
                ∙ fill_fits
                ∙ sym (cell_at-none s k o' e))
              h f))
  | inr (arr, e) ↦
      let (_, all_fit) = l in
      subst (Wrote s k o v) (sym (set_at-some s k o v arr e)) (
        write_cell-Wrote s k o v arr l (subst (ChunkFits s k) e (all_fit k))
          (λ o' _. sym (cell_at-some s k o' arr e)) h f)
]
