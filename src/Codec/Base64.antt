-- ===== src/Codec/Base64.antt =====
-- toBase64 and fromBase64 of chunk-rle.ts. Bytes that are shifted next to each other and joined by
-- `|` are a sum.
pub mod Inverse
use agentsimjs.Prelude.{
  ℕ, zero, suc, ◌+◌, ◌-◌, ◌*◌, ◌/◌, ◌%◌, ◌^◌, Bool, true, false, ◌&&◌, List, [], ◌∷◌, Option, none,
  some, ltb, leb, ◌==◌, length, take, get_or, codes, if◌then◌else◌,
}

abbrev pub alphabet : List ℕ
alphabet = codes "ABCDEFGHIJKLMNOPQRSTUVWXYZabcdefghijklmnopqrstuvwxyz0123456789+/"

unfoldable pub index_in : ℕ → List ℕ → ℕ → Option ℕ
index_in i [] ch = none
index_in i (c ∷ cs) ch = let later = index_in (suc i) cs ch in if c == ch then some i else later

-- `B64_INDEX`, with none for -1
unfoldable pub index_of : ℕ → Option ℕ
unfolding index_in
index_of ch = if ltb ch 128 then index_in 0 alphabet ch else none

-- The character for the six bits of `n` from `2 ^ k` on.
unfoldable pub digit : ℕ → ℕ → ℕ
digit n k = get_or alphabet (n / 2 ^ k % 64) 0

abbrev pub joined : ℕ → ℕ → ℕ → ℕ
joined a b c = a * 65536 + b * 256 + c

unfoldable pub to_base64 : List ℕ → List ℕ
unfolding digit
to_base64 [] = []
to_base64 (a ∷ []) = let n = joined a 0 0 in digit n 18 ∷ digit n 12 ∷ b'=' ∷ b'=' ∷ []
to_base64 (a ∷ b ∷ []) = let n = joined a b 0 in digit n 18 ∷ digit n 12 ∷ digit n 6 ∷ b'=' ∷ []
to_base64 (a ∷ b ∷ c ∷ bytes) =
    let n = joined a b c in digit n 18 ∷ digit n 12 ∷ digit n 6 ∷ digit n 0 ∷ to_base64 bytes

-- `s.endsWith("==") ? 2 : s.endsWith("=") ? 1 : 0`
unfoldable pub padding : List ℕ → ℕ
padding [] = 0
padding (c ∷ []) = if c == b'=' then 1 else 0
padding (c ∷ d ∷ []) = if d == b'=' then (if c == b'=' then 2 else 1) else 0
padding (c ∷ d ∷ e ∷ s) = padding (d ∷ e ∷ s)

-- The bits of a character with `left` characters left, itself included.
unfoldable pub sextet : ℕ → ℕ → ℕ → Option ℕ
unfolding index_of
sextet pad left ch = if ch == b'=' && leb left pad then some 0 else index_of ch

unfoldable pub bytes_of :
    Option ℕ → Option ℕ → Option ℕ → Option ℕ → Option (List ℕ) → Option (List ℕ)
bytes_of (some a) (some b) (some c) (some d) (some bytes) =
    let n = ((a * 64 + b) * 64 + c) * 64 + d in
    some (n / 65536 % 256 ∷ n / 256 % 256 ∷ n % 256 ∷ bytes)
bytes_of _ _ _ _ _ = none

-- The loop, by four characters; the length is a multiple of four.
unfoldable pub quads : ℕ → List ℕ → Option (List ℕ)
unfolding sextet bytes_of
quads pad (a ∷ b ∷ c ∷ d ∷ s) =
    bytes_of (sextet pad (4 + length s) a) (sextet pad (3 + length s) b)
      (sextet pad (2 + length s) c) (sextet pad (1 + length s) d) (quads pad s)
quads pad _ = some []

unfoldable pub from_base64 : List ℕ → Option (List ℕ)
unfolding padding quads
from_base64 s =
    if length s % 4 == 0
    then elim (quads (padding s) s) [
      | none ↦ none
      | some bytes ↦ some (take (length s / 4 * 3 - padding s) bytes)
    ]
    else none
