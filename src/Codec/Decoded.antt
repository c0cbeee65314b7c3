-- ===== src/Codec/Decoded.antt =====
-- Decoding any bytes ends: with an error of the source, or with as many cells as were asked for.
use agentsimjs.Prelude.{
  ℕ, zero, suc, ◌+◌, ◌*◌, ◌%◌, ◌^◌, ◌≤◌, ◌<◌, ◌≡◌, ◌≢◌, refl, List, [], ◌∷◌, ◌++◌, Option, none,
  some, Result, ok, err, ltb, ◌==◌, length, replicate, arith, if_cases,
}
use agentsimjs.Codec.{
  Width, one_byte, two_bytes, ChunkCodecError, out_of_fuel, varint, take_value, fill, decode_runs,
  decode_bytes,
}

abbrev Read : ℕ → Result ChunkCodecError (ℕ × List ℕ) → Type 0
Read n (ok (run, rest)) = length rest < n
Read n (err e) = e ≢ out_of_fuel

varint-Read : (shift run : ℕ) (bs : List ℕ) → Read (suc (length bs)) (varint shift run bs)
unfolding varint
varint-Read shift run [] = λ e. cc
varint-Read shift run (b ∷ bs) =
    if_cases Post (ltb 28 shift) (λ _. λ e. cc)
      (λ _.
        if_cases Post (ltb b 128) (λ _. omega arith)
          (λ _.
            Read-later (varint (shift + 7) (run + b % 128 * 2 ^ shift) bs)
              (varint-Read (shift + 7) (run + b % 128 * 2 ^ shift) bs)))
  where
    Post : Result ChunkCodecError (ℕ × List ℕ) → Type 0
    Post = Read (suc (suc (length bs)))

    Read-later : (r : Result ChunkCodecError (ℕ × List ℕ)) → Read (suc (length bs)) r → Post r
    Read-later (ok (n, rest)) h = omega arith
    Read-later (err e) h = h

take_value_shorter :
    (w : Width) (bs rest : List ℕ) (v : ℕ)
    → take_value w bs ≡ some (v, rest)
    → length rest < length bs
unfolding take_value
take_value_shorter one_byte [] rest v e = cc
take_value_shorter one_byte (a ∷ bs) rest v e = let same : bs ≡ rest = cc in rw same (omega arith)
take_value_shorter two_bytes [] rest v e = cc
take_value_shorter two_bytes (a ∷ []) rest v e = cc
take_value_shorter two_bytes (a ∷ b ∷ bs) rest v e =
    let same : bs ≡ rest = cc in rw same (omega arith)

-- A chunk of exactly `cells` cells, or an error of the source.
abbrev pub IsDecoded : ℕ → Result ChunkCodecError (List ℕ) → Type 0
IsDecoded cells (ok vs) = length vs ≡ cells
IsDecoded cells (err e) = e ≢ out_of_fuel

module _ (w : Width) (cells : ℕ) where
  fill-IsDecoded :
      (fuel run v : ℕ) (out rest : List ℕ)
      → ((out' : List ℕ) → IsDecoded cells (decode_runs w cells fuel out' rest))
      → IsDecoded cells (elim (fill cells run v out) [
        | err e ↦ err e
        | ok out' ↦ decode_runs w cells fuel out' rest
      ])
  unfolding fill
  fill-IsDecoded fuel run v out rest later =
      if_cases
        (λ (r : Result ChunkCodecError (List ℕ)).
          IsDecoded cells (elim r [ err e ↦ err e | ok out' ↦ decode_runs w cells fuel out' rest ]))
        (ltb cells (length out + run)) (λ _. λ e. cc) (λ _. later (out ++ replicate run v))

  decode_runs-IsDecoded :
      (fuel : ℕ) (out bs : List ℕ)
      → length bs ≤ fuel
      → IsDecoded cells (decode_runs w cells fuel out bs)
  unfolding decode_runs
  decode_runs-IsDecoded fuel out [] h =
      if_cases (IsDecoded cells) (length out == cells) (λ e. ground arith) (λ _. λ e. cc)
  decode_runs-IsDecoded zero out (b ∷ bs) h = absurd (omega arith)
  decode_runs-IsDecoded (suc fuel) out (b ∷ bs) h =
      with_run (varint 0 0 (b ∷ bs)) (varint-Read 0 0 (b ∷ bs))
        (λ out' rest short. decode_runs-IsDecoded fuel out' rest (omega arith))
    where
      Later : Type 0
      Later =
          (out' rest : List ℕ)
          → length rest < suc (length bs)
          → IsDecoded cells (decode_runs w cells fuel out' rest)

      with_value :
          (n : ℕ) (rest : List ℕ) (o : Option (ℕ × List ℕ))
          → take_value w rest ≡ o
          → length rest < suc (suc (length bs))
          → Later
          → IsDecoded cells (elim o [
            | none ↦ err ChunkCodecError.trailing_bytes
            | some (v, rest') ↦ elim (fill cells (suc n) v out) [
              | err e ↦ err e
              | ok out' ↦ decode_runs w cells fuel out' rest'
            ]
          ])
      with_value n rest none e short later = λ e. cc
      with_value n rest (some (v, rest')) e short later =
          let shorter = take_value_shorter w rest rest' v e in
          fill-IsDecoded fuel (suc n) v out rest' (λ out'. later out' rest' (omega arith))

      with_run :
          (r : Result ChunkCodecError (ℕ × List ℕ))
          → Read (suc (suc (length bs))) r
          → Later
          → IsDecoded cells (elim r [
            | err e ↦ err e
            | ok (run, rest) ↦ elim run [
              | zero ↦ err ChunkCodecError.zero_run
              | suc n ↦ elim (take_value w rest) [
                | none ↦ err ChunkCodecError.trailing_bytes
                | some (v, rest') ↦ elim (fill cells (suc n) v out) [
                  | err e ↦ err e
                  | ok out' ↦ decode_runs w cells fuel out' rest'
                ]
              ]
            ]
          ])
      with_run (err e) short later = short
      with_run (ok (zero, rest)) short later = λ e. cc
      with_run (ok (suc n, rest)) short later =
          with_value n rest (take_value w rest) refl short later

  -- Decoding untrusted bytes ends, with an error of the source or with exactly `cells` cells.
  pub decode_bytes-IsDecoded : (bytes : List ℕ) → IsDecoded cells (decode_bytes w cells bytes)
  unfolding decode_bytes
  decode_bytes-IsDecoded bytes = decode_runs-IsDecoded (length bytes) [] bytes (omega arith)
