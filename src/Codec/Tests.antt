-- ===== src/Codec/Tests.antt =====
-- Two runs of cells.
use agentsimjs.Prelude.{ℕ, ◌≡◌, refl, List, [], ◌∷◌, ok, err, arith, codes, some}
use agentsimjs.Codec.{
  one_byte, two_bytes, encode_bytes, decode_bytes, run_overflow, zero_run, decode_runs, encode_runs,
}
use agentsimjs.Codec.Base64.{to_base64, from_base64}
use agentsimjs.Codec.Base64.Inverse.{from_base64-to_base64}
use agentsimjs.Codec.Decoded.{IsDecoded}
use agentsimjs.Codec.Chunk.{
  encode_chunk_rle, decode_chunk_rle, decode_chunk_rle-encode_chunk_rle, decode_chunk_rle-IsDecoded,
}

abbrev cells : List ℕ
cells = 7 ∷ 7 ∷ 7 ∷ 300 ∷ []

encodes : encode_bytes two_bytes cells ≡ 3 ∷ 7 ∷ 0 ∷ 1 ∷ 44 ∷ 1 ∷ []
unfolding encode_bytes encode_runs
encodes = refl

decode_chunk_rle-encode_chunk_rle_example :
    decode_chunk_rle two_bytes 4 (encode_chunk_rle two_bytes cells) ≡ ok cells
decode_chunk_rle-encode_chunk_rle_example =
    decode_chunk_rle-encode_chunk_rle two_bytes cells (omega arith)
      (omega arith, (omega arith, (omega arith, (omega arith, tt))))

encodes_text : encode_chunk_rle two_bytes cells ≡ codes "AwcAASwB"
unfolding encode_chunk_rle encode_runs
encodes_text = refl

from_base64-to_base64_example :
    from_base64 (to_base64 (3 ∷ 200 ∷ 9 ∷ 77 ∷ [])) ≡ some (3 ∷ 200 ∷ 9 ∷ 77 ∷ [])
from_base64-to_base64_example =
    from_base64-to_base64 (3 ∷ 200 ∷ 9 ∷ 77 ∷ [])
      (omega arith, (omega arith, (omega arith, (omega arith, tt))))

overflows : decode_bytes one_byte 4 (9 ∷ 1 ∷ []) ≡ err run_overflow
unfolding decode_bytes decode_runs
overflows = refl

zero_runs : decode_bytes one_byte 4 (0 ∷ 1 ∷ []) ≡ err zero_run
unfolding decode_bytes decode_runs
zero_runs = refl

decode_chunk_rle-IsDecoded_example : IsDecoded 4 (decode_chunk_rle one_byte 4 (codes "CQE="))
decode_chunk_rle-IsDecoded_example = decode_chunk_rle-IsDecoded one_byte 4 (codes "CQE=")
