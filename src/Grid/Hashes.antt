-- ===== src/Grid/Hashes.antt =====
-- The cached hashes of chunks (chunkHash).
use agentsimjs.Prelude.{
  ℕ, ◌<◌, ◌≡◌, inl, inr, refl, sym, ap, ◌∙◌, subst, true, List, [], ◌∷◌, some, ◌==◌, ==_iff,
  if◌then◌else◌, if_cases, Bool-cases,
}
use agentsimjs.Grid.{
  ChunkedLayer, new_layer, chunk_index, index_of, offset_of, set_cell, fill_chunk, set_chunk,
  read_at, read_chunk, cell_bytes, chunk_hash,
}
use agentsimjs.Grid.Writes.{Fits, IsLayer}
use agentsimjs.Grid.Meaning.{
  Op, setting, filling, replacing, hashing, apply, apply_all, AllAdmissible, apply-Means, or_same,
}
use agentsimjs.Grid.Refines.{Admissible-shape, new_layer-IsLayer}
use agentsimjs.Grid.Keeps.{Keeps, fill_chunk-Keeps, set_chunk-Keeps, set_at-Keeps}

module _ (xx_hash : List ℕ → ℕ) where
  -- The hash of what a chunk holds.
  abbrev pub fresh_hash : ChunkedLayer → ℕ → ℕ
  fresh_hash s k = xx_hash (cell_bytes s.bytes_per_element (read_at s k))

  -- A hash that is marked valid is the chunk's.
  abbrev HashesHold : ChunkedLayer → Type 0
  HashesHold s = (k : ℕ) → s.hash_valid k ≡ true → s.hash_at k ≡ some (fresh_hash s k)

  Keeps-HashesHold : (s t : ChunkedLayer) → HashesHold s → Keeps s t → HashesHold t
  Keeps-HashesHold s t h (b, k) i e =
      let (v, (g, r)) = k i e in
      let q : fresh_hash s i ≡ fresh_hash t i = cc (b, r) in g ∙ h i v ∙ ap some q

  chunk_hash-HashesHold :
      (s : ChunkedLayer) (ci cj : ℕ)
      → HashesHold s
      → ((chunk_hash xx_hash s ci cj).0 ≡ fresh_hash s (chunk_index s ci cj))
        × HashesHold (chunk_hash xx_hash s ci cj).1
  unfolding chunk_hash read_at
  chunk_hash-HashesHold s ci cj h =
      let k = chunk_index s ci cj in
      if_cases (λ (r : ℕ × ChunkedLayer). (r.0 ≡ fresh_hash s k) × HashesHold r.1) (s.hash_valid k)
        (λ e. (rw (h k e) refl, h))
        (λ _. (
          refl,
          λ k' e. elim (Bool-cases (k' == k)) [
            | inl q ↦
                let (to_equal, _) = ==_iff k' k in
                rw q (ap (λ x. some (fresh_hash s x)) (sym (to_equal q)))
            | inr q ↦ rw q (h k' (subst (λ b. (if b then true else s.hash_valid k') ≡ true) q e))
          ],
        ))

  apply-HashesHold :
      (op : Op) (s : ChunkedLayer) → IsLayer s → HashesHold s → HashesHold (apply xx_hash op s)
  unfolding apply set_cell
  apply-HashesHold (setting i j v) s (_, f) h =
      let k = index_of s i j in
      Keeps-HashesHold s (set_cell s i j v).1 h
        (set_at-Keeps s k (offset_of s.chunk_size i j) v (f k))
  apply-HashesHold (filling ci cj v) s l h =
      Keeps-HashesHold s (fill_chunk s ci cj v) h (fill_chunk-Keeps s ci cj v)
  apply-HashesHold (replacing ci cj values) s l h =
      Keeps-HashesHold s (or_same s (set_chunk s ci cj values)) h (set_chunk-Keeps s ci cj values)
  apply-HashesHold (hashing ci cj) s l h = let (_, k) = chunk_hash-HashesHold s ci cj h in k

  apply_all-HashesHold :
      (ops : List Op) (s : ChunkedLayer)
      → IsLayer s
      → AllAdmissible s ops
      → HashesHold s
      → HashesHold (apply_all xx_hash ops s)
  unfolding apply_all
  apply_all-HashesHold [] s l a h = h
  apply_all-HashesHold (op ∷ ops) s l (a, later) h =
      let ((l', e), _) = apply-Means xx_hash op s l a in
      apply_all-HashesHold ops (apply xx_hash op s) l'
        (Admissible-shape s (apply xx_hash op s) ops e later) (apply-HashesHold op s l h)

  new_layer-HashesHold :
      (chunks_x chunks_y chunk_size d bytes : ℕ)
      → HashesHold (new_layer chunks_x chunks_y chunk_size d bytes)
  unfolding new_layer
  new_layer-HashesHold chunks_x chunks_y chunk_size d bytes = λ k e. cc e

  -- For a new layer with a positive chunk size and a default that its cells can hold: after any
  -- operations within its width, with values that its cells can hold, the hash it gives for a chunk,
  -- cached or not, is that of the bytes of what the chunk holds then.
  pub chunk_hash-read_chunk :
      (chunks_x chunks_y chunk_size d bytes : ℕ) (ops : List Op)
      → 0 < chunk_size
      → Fits (new_layer chunks_x chunks_y chunk_size d bytes) d
      → AllAdmissible (new_layer chunks_x chunks_y chunk_size d bytes) ops
      → (ci cj : ℕ)
      → (chunk_hash xx_hash
          (apply_all xx_hash ops (new_layer chunks_x chunks_y chunk_size d bytes))
          ci
          cj).0
        ≡ xx_hash (
            cell_bytes
              (apply_all xx_hash ops
                (new_layer chunks_x chunks_y chunk_size d bytes)).bytes_per_element
              (read_chunk
                (apply_all xx_hash ops (new_layer chunks_x chunks_y chunk_size d bytes))
                ci
                cj))
  unfolding read_chunk
  chunk_hash-read_chunk chunks_x chunks_y chunk_size d bytes ops h f a ci cj =
      let s = new_layer chunks_x chunks_y chunk_size d bytes in
      let fresh : HashesHold s = new_layer-HashesHold chunks_x chunks_y chunk_size d bytes in
      let held =
        apply_all-HashesHold ops s (new_layer-IsLayer chunks_x chunks_y chunk_size d bytes h f) a
          fresh in
      let (e, _) = chunk_hash-HashesHold (apply_all xx_hash ops s) ci cj held in e
