-- ===== src/Codec/Chunk.antt =====
-- encodeChunkRle and decodeChunkRle of chunk-rle.ts on the text of a scenario document.
use agentsimjs.Prelude.{
  ℕ, zero, suc, ◌+◌, ◌*◌, ◌/◌, ◌^◌, ◌≤◌, ◌<◌, ◌≡◌, false, List, [], ◌∷◌, ◌++◌, Option, none, some,
  Result, ok, err, ltb, leb, length, drop, length-append, length-drop, arith, if_cases, Bool-cases,
  inl, inr, if◌then◌else◌,
}
use agentsimjs.Codec.{
  Width, one_byte, two_bytes, ChunkCodecError, bad_base64, run_overflow, same_run, varint_bytes,
  value_bytes, encode_runs, encode_bytes, decode_bytes,
}
use agentsimjs.Codec.Base64.{to_base64, from_base64}
use agentsimjs.Codec.Base64.Inverse.{Bytes, from_base64-to_base64, to_base64_short}
use agentsimjs.Codec.Varint.{capacity}
use agentsimjs.Codec.RoundTrip.{AllFit, same_run-Splits, decode_bytes-encode_bytes}
use agentsimjs.Codec.Decoded.{IsDecoded, decode_bytes-IsDecoded}

bytes_per_value : Width → ℕ
bytes_per_value one_byte = 1
bytes_per_value two_bytes = 2

unfoldable pub encode_chunk_rle : Width → List ℕ → List ℕ
unfolding to_base64 encode_bytes
encode_chunk_rle w values = to_base64 (encode_bytes w values)

unfoldable pub decode_chunk_rle : Width → ℕ → List ℕ → Result ChunkCodecError (List ℕ)
unfolding from_base64 decode_bytes bytes_per_value
decode_chunk_rle w cell_count encoded =
    -- Math.ceil((cellCount * (3 + bytesPerValue)) / 3) * 4 + 4
    if ltb ((cell_count * (3 + bytes_per_value w) + 2) / 3 * 4 + 4) (length encoded)
    then err run_overflow
    else elim (from_base64 encoded) [
      | none ↦ err bad_base64
      | some bytes ↦ decode_bytes w cell_count bytes
    ]

Bytes-append : (xs ys : List ℕ) → Bytes xs → Bytes ys → Bytes (xs ++ ys)
Bytes-append [] ys h k = k
Bytes-append (x ∷ xs) ys h k = (h.0, Bytes-append xs ys h.1 k)

varint_bytes-Bytes : (fuel r : ℕ) → r < capacity fuel → Bytes (varint_bytes fuel r)
unfolding varint_bytes
varint_bytes-Bytes zero r h = (omega arith, tt)
varint_bytes-Bytes (suc fuel) r h =
    if_cases Bytes (leb 128 r) (λ _. (omega arith, varint_bytes-Bytes fuel (r / 128) (omega arith)))
      (λ e. (ground arith, tt))

varint_bytes_short : (fuel r : ℕ) → 1 ≤ r → length (varint_bytes fuel r) ≤ r
unfolding varint_bytes
varint_bytes_short zero r h = omega arith
varint_bytes_short (suc fuel) r h = elim (Bool-cases (leb 128 r)) [
  | inl e ↦
      let big : 128 ≤ r = ground arith in
      let later = varint_bytes_short fuel (r / 128) (omega arith) in rw e (omega arith)
  | inr e ↦ rw e (omega arith)
]

value_bytes-Bytes : (w : Width) (v : ℕ) → Bytes (value_bytes w v) × (length (value_bytes w v) ≤ 2)
unfolding value_bytes
value_bytes-Bytes one_byte v = ((omega arith, tt), omega arith)
value_bytes-Bytes two_bytes v = ((omega arith, (omega arith, tt)), omega arith)

-- Bytes, at most three for each value.
encode_runs-Bytes :
    (w : Width) (fuel : ℕ) (vs : List ℕ)
    → length vs < 2 ^ 32
    → Bytes (encode_runs w fuel vs) × (length (encode_runs w fuel vs) ≤ 3 * length vs)
unfolding encode_runs
encode_runs-Bytes w fuel [] small = (tt, omega arith)
encode_runs-Bytes w zero (v ∷ vs) small = (tt, omega arith)
encode_runs-Bytes w (suc fuel) (v ∷ vs) small =
    let n = same_run v vs in
    let (_, within) = same_run-Splits v vs in
    let left = length-drop n vs in
    let (rest_bytes, rest_short) = encode_runs-Bytes w fuel (drop n vs) (omega arith) in
    let (value, short) = value_bytes-Bytes w v in
    let run = varint_bytes_short 4 (suc n) (omega arith) in
    let outer =
      length-append (varint_bytes 4 (suc n)) (value_bytes w v ++ encode_runs w fuel (drop n vs)) in
    let inner = length-append (value_bytes w v) (encode_runs w fuel (drop n vs)) in
    (
      Bytes-append (varint_bytes 4 (suc n)) (value_bytes w v ++ encode_runs w fuel (drop n vs))
          (varint_bytes-Bytes 4 (suc n) (omega arith))
          (Bytes-append (value_bytes w v) (encode_runs w fuel (drop n vs)) value rest_bytes),
      omega arith,
    )

within_limit : (a b : ℕ) → a ≤ b → ltb b a ≡ false
within_limit a b h = ground arith

fits_limit :
    (w : Width) (cells size : ℕ)
    → size ≤ 3 * cells
    → (size + 2) / 3 * 4 ≤ (cells * (3 + bytes_per_value w) + 2) / 3 * 4 + 4
unfolding bytes_per_value
fits_limit one_byte cells size h = omega arith
fits_limit two_bytes cells size h = omega arith

-- The text of a chunk of fewer than 2^32 cells is decoded to its cells, when each fits in the width.
pub decode_chunk_rle-encode_chunk_rle :
    (w : Width) (values : List ℕ)
    → length values < 2 ^ 32
    → AllFit w values
    → decode_chunk_rle w (length values) (encode_chunk_rle w values) ≡ ok values
unfolding decode_chunk_rle encode_chunk_rle encode_bytes
decode_chunk_rle-encode_chunk_rle w values small fits =
    let (bytes, short) = encode_runs-Bytes w (length values) values small in
    let text = to_base64_short (encode_bytes w values) in
    let limit = fits_limit w (length values) (length (encode_bytes w values)) short in
    let allowed : ltb ((length values * (3 + bytes_per_value w) + 2) / 3 * 4 + 4)
          (length (to_base64 (encode_bytes w values)))
        ≡ false =
      within_limit (length (to_base64 (encode_bytes w values)))
        ((length values * (3 + bytes_per_value w) + 2) / 3 * 4 + 4) (omega arith) in
    rw (allowed, from_base64-to_base64 (encode_bytes w values) bytes)
      (decode_bytes-encode_bytes w values small fits)

-- Whatever the text, decoding it ends with an error of the source or with exactly `cells` cells.
pub decode_chunk_rle-IsDecoded :
    (w : Width) (cells : ℕ) (encoded : List ℕ) → IsDecoded cells (decode_chunk_rle w cells encoded)
unfolding decode_chunk_rle
decode_chunk_rle-IsDecoded w cells encoded =
    if_cases (IsDecoded cells)
      (ltb ((cells * (3 + bytes_per_value w) + 2) / 3 * 4 + 4) (length encoded)) (λ _. λ e. cc)
      (λ _. decoded (from_base64 encoded))
  where
    decoded :
        (o : Option (List ℕ))
        → IsDecoded cells
            (elim o [ none ↦ err bad_base64 | some bytes ↦ decode_bytes w cells bytes ])
    decoded none = λ e. cc
    decoded (some bytes) = decode_bytes-IsDecoded w cells bytes
