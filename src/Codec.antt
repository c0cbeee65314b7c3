-- ===== src/Codec.antt =====
-- packages/spatial/src/codec/chunk-rle.ts: the run-length encoding of the cells of a chunk, as bytes.
-- A byte is a number below 256. `Base64` is the text of bytes, and `Chunk` the whole encoding.
pub mod Base64
pub mod Chunk
pub mod Varint
pub mod RoundTrip
pub mod Decoded
mod Tests
use agentsimjs.Prelude.{
  ℕ, zero, suc, ◌+◌, ◌-◌, ◌*◌, ◌/◌, ◌%◌, ◌^◌, Bool, true, false, List, [], ◌∷◌, ◌++◌, Option, none,
  some, Result, ok, err, ltb, leb, ◌==◌, length, drop, replicate, if◌then◌else◌,
}

-- `bytesPerValue`
pub data Width : Type 0 where
  one_byte two_bytes : Width

-- `out_of_fuel` is no error of the source: decoding never ends with it (`Decoded`).
pub data ChunkCodecError : Type 0 where
  bad_base64 bad_varint zero_run trailing_bytes run_overflow run_underflow out_of_fuel :
      ChunkCodecError

-- The values after the first that are equal to it.
unfoldable pub same_run : ℕ → List ℕ → ℕ
same_run v [] = 0
same_run v (x ∷ xs) = let n = same_run v xs in if x == v then suc n else 0

-- `while (r >= 0x80)`, on fuel: an array has fewer than 2^32 cells, and five groups hold 35 bits.
unfoldable pub varint_bytes : ℕ → ℕ → List ℕ
varint_bytes zero r = r ∷ []
varint_bytes (suc fuel) r =
    let later = varint_bytes fuel (r / 128) in if leb 128 r then (r % 128 + 128) ∷ later else r ∷ []

unfoldable pub value_bytes : Width → ℕ → List ℕ
value_bytes one_byte v = v % 256 ∷ []
value_bytes two_bytes v = v % 256 ∷ v / 256 % 256 ∷ []

unfoldable pub encode_runs : Width → ℕ → List ℕ → List ℕ
unfolding same_run varint_bytes value_bytes
encode_runs w fuel [] = []
encode_runs w zero (v ∷ vs) = []
encode_runs w (suc fuel) (v ∷ vs) =
    varint_bytes 4 (suc (same_run v vs))
    ++ (value_bytes w v ++ encode_runs w fuel (drop (same_run v vs) vs))

-- A run is not empty, so the number of values is enough fuel.
unfoldable pub encode_bytes : Width → List ℕ → List ℕ
unfolding encode_runs
encode_bytes w vs = encode_runs w (length vs) vs

-- The inner loop of decoding: the run's length, and the bytes behind it.
unfoldable pub varint : ℕ → ℕ → List ℕ → Result ChunkCodecError (ℕ × List ℕ)
varint shift run [] = err bad_varint
varint shift run (b ∷ bs) =
    let later = varint (shift + 7) (run + b % 128 * 2 ^ shift) bs in
    if ltb 28 shift
    then err bad_varint
    else if ltb b 128
    then ok (run + b % 128 * 2 ^ shift, bs)
    else later

unfoldable pub take_value : Width → List ℕ → Option (ℕ × List ℕ)
take_value one_byte (a ∷ bs) = some (a, bs)
take_value two_bytes (a ∷ b ∷ bs) = some (a + b * 256, bs)
take_value _ _ = none

-- A run that is read, with its value: filled in, unless it leaves the chunk.
unfoldable pub fill : ℕ → ℕ → ℕ → List ℕ → Result ChunkCodecError (List ℕ)
fill cell_count run v out =
    if ltb cell_count (length out + run) then err run_overflow else ok (out ++ replicate run v)

module _ (w : Width) (cell_count : ℕ) where
  -- The outer loop; `out` is the part of the chunk that is filled.
  unfoldable pub decode_runs : ℕ → List ℕ → List ℕ → Result ChunkCodecError (List ℕ)
  unfolding varint take_value fill
  decode_runs fuel out [] = if length out == cell_count then ok out else err run_underflow
  decode_runs zero out (b ∷ bs) = err out_of_fuel
  decode_runs (suc fuel) out (b ∷ bs) = elim (varint 0 0 (b ∷ bs)) [
    | err e ↦ err e
    | ok (run, rest) ↦ elim run [
      | zero ↦ err zero_run
      | suc n ↦ elim (take_value w rest) [
        | none ↦ err trailing_bytes
        | some (v, rest') ↦ elim (fill cell_count (suc n) v out) [
          | err e ↦ err e
          | ok out' ↦ decode_runs fuel out' rest'
        ]
      ]
    ]
  ]

  unfoldable pub decode_bytes : List ℕ → Result ChunkCodecError (List ℕ)
  unfolding decode_runs
  decode_bytes bytes = decode_runs (length bytes) [] bytes
