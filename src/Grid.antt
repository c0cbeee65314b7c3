-- ===== src/Grid.antt =====
-- packages/spatial/src/grid/chunked-layer.ts: a layer of a grid in square chunks, each of one value or
-- of an array of cells. The layer's arrays by chunk are functions of the chunk's index: an element that
-- was never written is none. A typed array is the list of its elements, of `bytes_per_element` bytes.
pub mod Index
pub mod Writes
pub mod Chunks
pub mod Meaning
pub mod Refines
mod Keeps
pub mod Hashes
pub mod RoundTrip
mod Tests
use agentsimjs.Prelude.{
  ℕ, zero, suc, ◌+◌, ◌-◌, ◌*◌, ◌/◌, ◌%◌, ◌^◌, Bool, true, false, not, ◌&&◌, List, [], ◌∷◌, map,
  Option, none, some, Result, ok, err, ltb, ◌==◌, length, get_elem?, get_or, set, replicate,
  if◌then◌else◌,
}

pub record ChunkedLayer : Type 0 where
  pub chunks_x : ℕ
  pub chunk_size : ℕ
  pub default_value : ℕ
  pub bytes_per_element : ℕ
  pub data_at : ℕ → Option (List ℕ)
  pub fill_at : ℕ → Option ℕ
  pub hash_at : ℕ → Option ℕ
  pub hash_valid : ℕ → Bool

-- what a typed array keeps of a number
abbrev pub wrap : ChunkedLayer → ℕ → ℕ
wrap s v = v % 2 ^ (8 * s.bytes_per_element)

abbrev pub chunk_cells : ChunkedLayer → ℕ
chunk_cells s = s.chunk_size * s.chunk_size

unfoldable pub new_layer : ℕ → ℕ → ℕ → ℕ → ℕ → ChunkedLayer
new_layer chunks_x chunks_y chunk_size default_value bytes_per_element = record {
  chunks_x = chunks_x;
  chunk_size = chunk_size;
  default_value = default_value;
  bytes_per_element = bytes_per_element;
  data_at = λ k. none;
  fill_at = λ k. if ltb k (chunks_x * chunks_y) then some default_value else none;
  hash_at = λ k. if ltb k (chunks_x * chunks_y) then some 0 else none;
  hash_valid = λ k. false;
}

-- a write to an element of an array
abbrev pub update {ℓ} : {A : Type ℓ} → (ℕ → A) → ℕ → A → ℕ → A
update f k v = λ i. if i == k then v else f i

abbrev pub chunk_index : ChunkedLayer → ℕ → ℕ → ℕ
chunk_index s ci cj = cj * s.chunks_x + ci

-- the chunk of a cell, and the cell's place in it
abbrev pub index_of : ChunkedLayer → ℕ → ℕ → ℕ
index_of s i j = chunk_index s (i / s.chunk_size) (j / s.chunk_size)

abbrev pub offset_of : ℕ → ℕ → ℕ → ℕ
offset_of cs i j = (j - j / cs * cs) * cs + (i - i / cs * cs)

abbrev pub fill_of : ChunkedLayer → ℕ → ℕ
fill_of s k = elim (s.fill_at k) [ none ↦ s.default_value | some f ↦ f ]

unfoldable pub cell_at : ChunkedLayer → ℕ → ℕ → ℕ
cell_at s k o = elim (s.data_at k) [ none ↦ fill_of s k | some arr ↦ get_or arr o s.default_value ]

unfoldable pub get_cell : ChunkedLayer → ℕ → ℕ → ℕ
unfolding cell_at
get_cell s i j = cell_at s (index_of s i j) (offset_of s.chunk_size i j)

abbrev pub has_value : Option ℕ → ℕ → Bool
has_value none v = false
has_value (some w) v = w == v

-- the end of `set`, on the chunk's array
unfoldable pub write_cell : List ℕ → ChunkedLayer → ℕ → ℕ → ℕ → Bool × ChunkedLayer
write_cell arr s k o v =
    if has_value (get_elem? arr o) v
    then (false, record s { data_at = update s.data_at k (some arr) })
    else (
      true,
      record s {
        data_at = update s.data_at k (some (set arr o (wrap s v)));
        hash_valid = update s.hash_valid k false;
      },
    )

unfoldable pub set_at : ChunkedLayer → ℕ → ℕ → ℕ → Bool × ChunkedLayer
unfolding write_cell
set_at s k o v = elim (s.data_at k) [
  | none ↦
      if fill_of s k == v
      then (false, s)
      else write_cell (replicate (chunk_cells s) (wrap s (fill_of s k))) s k o v
  | some arr ↦ write_cell arr s k o v
]

unfoldable pub set_cell : ChunkedLayer → ℕ → ℕ → ℕ → Bool × ChunkedLayer
unfolding set_at
set_cell s i j v = set_at s (index_of s i j) (offset_of s.chunk_size i j) v

unfoldable pub fill_chunk : ChunkedLayer → ℕ → ℕ → ℕ → ChunkedLayer
fill_chunk s ci cj v =
    let k = chunk_index s ci cj in
    record s {
      data_at = update s.data_at k none;
      fill_at = update s.fill_at k (some v);
      hash_valid = update s.hash_valid k false;
    }

unfoldable pub all_equal : ℕ → List ℕ → Bool
all_equal v [] = true
all_equal v (w ∷ ws) = w == v && all_equal v ws

pub data RangeError : Type 0 where
  wrong_length : RangeError

unfoldable pub set_chunk : ChunkedLayer → ℕ → ℕ → List ℕ → Result RangeError ChunkedLayer
unfolding all_equal fill_chunk
set_chunk s ci cj values =
    if not (length values == chunk_cells s)
    then err wrong_length
    else if all_equal (get_or values 0 0) values
    then ok (fill_chunk s ci cj (get_or values 0 0))
    else ok (record s {
      data_at = update s.data_at (chunk_index s ci cj) (some (map (wrap s) values));
      hash_valid = update s.hash_valid (chunk_index s ci cj) false;
    })

unfoldable pub uniform_value : ChunkedLayer → ℕ → ℕ → Option ℕ
uniform_value s ci cj = elim (s.data_at (chunk_index s ci cj)) [
  | none ↦ some (fill_of s (chunk_index s ci cj))
  | some arr ↦ none
]

-- the cells of an array from number `i` on
unfoldable pub cells_from : ℕ → ℕ → List ℕ → List ℕ
cells_from zero i arr = []
cells_from (suc n) i arr = get_or arr i 0 ∷ cells_from n (suc i) arr

unfoldable pub read_at : ChunkedLayer → ℕ → List ℕ
unfolding cells_from
read_at s k = elim (s.data_at k) [
  | none ↦ replicate (chunk_cells s) (fill_of s k)
  | some arr ↦ cells_from (chunk_cells s) 0 arr
]

unfoldable pub read_chunk : ChunkedLayer → ℕ → ℕ → List ℕ
unfolding read_at
read_chunk s ci cj = read_at s (chunk_index s ci cj)

-- little-endian cells
unfoldable pub cell_bytes : ℕ → List ℕ → List ℕ
cell_bytes b [] = []
cell_bytes b (v ∷ vs) =
    let rest = cell_bytes b vs in if b == 2 then v % 256 ∷ v / 256 % 256 ∷ rest else v % 256 ∷ rest

-- The hash function is an argument: xxHash32 of a chunk's bytes.
module _ (xx_hash : List ℕ → ℕ) where
  unfoldable pub chunk_hash : ChunkedLayer → ℕ → ℕ → ℕ × ChunkedLayer
  unfolding read_at cell_bytes
  chunk_hash s ci cj =
      let k = chunk_index s ci cj in
      let h = xx_hash (cell_bytes s.bytes_per_element (read_at s k)) in
      if s.hash_valid k then (elim (s.hash_at k) [ none ↦ 0 | some h ↦ h ], s) else (
        h,
        record s { hash_at = update s.hash_at k (some h); hash_valid = update s.hash_valid k true },
      )
