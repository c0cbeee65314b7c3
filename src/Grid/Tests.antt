-- ===== src/Grid/Tests.antt =====
-- A layer of two chunks of two by two cells of one byte.
use agentsimjs.Prelude.{ok, ℕ, ◌+◌, ◌≡◌, ◌↔◌, refl, false, List, [], ◌∷◌, arith}
use agentsimjs.Grid.RoundTrip.{read_chunk-set_chunk}
use agentsimjs.Grid.{
  ChunkedLayer, new_layer, get_cell, set_cell, fill_chunk, set_chunk, chunk_hash, cell_bytes,
  read_chunk,
}
use agentsimjs.Grid.Writes.{IsLayer}
use agentsimjs.Grid.Hashes.{chunk_hash-read_chunk}
use agentsimjs.Grid.Meaning.{
  Op, setting, filling, replacing, hashing, apply, apply_all, meaning, meaning_all, AllAdmissible,
}
use agentsimjs.Grid.Refines.{new_layer-meaning_all, new_layer-IsLayer, set_cell-get_cell}

abbrev total : List ℕ → ℕ
total [] = 0
total (b ∷ bs) = b + total bs

abbrev edits : List Op
edits =
    setting 1 1 7
    ∷ filling 1 0 9
    ∷ hashing 0 0
    ∷ replacing 0 0 (1 ∷ 2 ∷ 3 ∷ 4 ∷ [])
    ∷ setting 2 1 8
    ∷ []

edits-AllAdmissible : AllAdmissible (new_layer 2 1 2 0 1) edits
unfolding new_layer
edits-AllAdmissible = (
  (omega arith, refl),
  (
    (omega arith, refl),
    (tt, ((omega arith, (refl, (refl, (refl, (refl, tt))))), ((omega arith, refl), tt))),
  ),
)

new_layer-meaning_all_example :
    get_cell (apply_all total edits (new_layer 2 1 2 0 1)) 2 1 ≡ meaning_all 2 edits 2 1 0
unfolding new_layer
new_layer-meaning_all_example =
    new_layer-meaning_all total 2 1 2 0 1 edits (omega arith) refl edits-AllAdmissible 2 1
      (omega arith)

edits_at_end : meaning_all 2 edits 2 1 0 ≡ 8
unfolding meaning_all meaning
edits_at_end = refl

chunk_hash-read_chunk_example :
    (chunk_hash total (apply_all total edits (new_layer 2 1 2 0 1)) 1 0).0
    ≡ total (
        cell_bytes
          (apply_all total edits (new_layer 2 1 2 0 1)).bytes_per_element
          (read_chunk (apply_all total edits (new_layer 2 1 2 0 1)) 1 0))
unfolding new_layer
chunk_hash-read_chunk_example =
    chunk_hash-read_chunk total 2 1 2 0 1 edits (omega arith) refl edits-AllAdmissible 1 0

-- 9 and 9, 8 and 9 in the second chunk
second_chunk_hash : (chunk_hash total (apply_all total edits (new_layer 2 1 2 0 1)) 1 0).0 ≡ 35
unfolding chunk_hash apply_all apply new_layer set_cell fill_chunk set_chunk
second_chunk_hash = refl

empty-IsLayer : IsLayer (new_layer 2 1 2 0 1)
unfolding new_layer
empty-IsLayer = new_layer-IsLayer 2 1 2 0 1 (omega arith) refl

set_cell-get_cell_example :
    ((set_cell (new_layer 2 1 2 0 1) 1 1 7).0 ≡ false) ↔ (get_cell (new_layer 2 1 2 0 1) 1 1 ≡ 7)
unfolding new_layer
set_cell-get_cell_example = set_cell-get_cell (new_layer 2 1 2 0 1) 1 1 7 empty-IsLayer refl

read_chunk-set_chunk_example :
    (t : ChunkedLayer) × ((set_chunk (new_layer 2 1 2 0 1) 1 0 (5 ∷ 6 ∷ 5 ∷ 255 ∷ []) ≡ ok t)
      × (read_chunk t 1 0 ≡ 5 ∷ 6 ∷ 5 ∷ 255 ∷ []))
unfolding new_layer
read_chunk-set_chunk_example =
    read_chunk-set_chunk (new_layer 2 1 2 0 1) 1 0 (5 ∷ 6 ∷ 5 ∷ 255 ∷ [])
      (refl, (refl, (refl, (refl, tt)))) refl
