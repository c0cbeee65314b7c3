-- ===== src/Codec/Base64/Inverse.antt =====
-- Base64 of bytes is read back as those bytes.
use agentsimjs.Prelude.{
  ℕ, zero, suc, ◌+◌, ◌-◌, ◌*◌, ◌/◌, ◌%◌, ◌^◌, ◌≤◌, ◌<◌, ◌≡◌, inl, inr, refl, ap, ◌∙◌, Bool, true,
  false, ◌&&◌, not, List, [], ◌∷◌, ◌++◌, Option, none, some, ltb, ◌==◌, length, get_or, replicate,
  take-append, take_all, arith, Bool-cases,
}
use agentsimjs.Codec.Base64.{
  alphabet, index_of, digit, joined, to_base64, padding, sextet, bytes_of, quads, from_base64,
}

is_index : Option ℕ → ℕ → Bool
is_index none v = false
is_index (some i) v = i == v

-- The character of a value is no `=`, and stands for the value.
names_value : ℕ → Bool
unfolding is_index index_of
names_value v = not (get_or alphabet v 0 == b'=') && is_index (index_of (get_or alphabet v 0)) v

all_below : (ℕ → Bool) → ℕ → Bool
all_below p zero = true
all_below p (suc n) = p n && all_below p n

and_parts : (a b : Bool) → (a && b) ≡ true → (a ≡ true) × (b ≡ true)
and_parts true b h = (refl, h)
and_parts false b h = cc

all_below-true : (p : ℕ → Bool) (n v : ℕ) → all_below p n ≡ true → v < n → p v ≡ true
unfolding all_below
all_below-true p zero v h l = absurd (omega arith)
all_below-true p (suc n) v h l =
    let (here, below) = and_parts (p n) (all_below p n) h in
    elim (Bool-cases (ltb v n)) [
      | inl e ↦ all_below-true p n v below (ground arith)
      | inr e ↦ let same : v ≡ n = ground arith in rw same here
    ]

alphabet_names : all_below names_value 64 ≡ true
unfolding all_below names_value
alphabet_names = refl

abbrev Names : ℕ → ℕ → Type 0
Names ch v = ((ch == b'=') ≡ false) × (index_of ch ≡ some v)

is_index-some : (o : Option ℕ) (v : ℕ) → is_index o v ≡ true → o ≡ some v
unfolding is_index
is_index-some none v h = cc
is_index-some (some i) v h = let e : i ≡ v = ground arith in rw e refl

digit-Names : (n k : ℕ) → Names (digit n k) (n / 2 ^ k % 64)
unfolding digit names_value
digit-Names n k =
    let v = n / 2 ^ k % 64 in
    let h = all_below-true names_value 64 v alphabet_names (omega arith) in
    let (other, index) =
      and_parts (not (digit n k == b'=')) (is_index (index_of (digit n k)) v) h in
    (not_true (digit n k == b'=') other, is_index-some (index_of (digit n k)) v index)
  where
    not_true : (b : Bool) → not b ≡ true → b ≡ false
    not_true true h = cc
    not_true false h = refl

sextet-digit : (pad left n k : ℕ) → sextet pad left (digit n k) ≡ some (n / 2 ^ k % 64)
unfolding sextet
sextet-digit pad left n k = let (other, index) = digit-Names n k in rw (other, index) refl

-- The `=` that close the text.
abbrev missing : List ℕ → ℕ
missing [] = 0
missing (a ∷ []) = 2
missing (a ∷ b ∷ []) = 1
missing (a ∷ b ∷ c ∷ bytes) = missing bytes

padding-to_base64 : (bytes : List ℕ) → padding (to_base64 bytes) ≡ missing bytes
unfolding padding to_base64
padding-to_base64 [] = refl
padding-to_base64 (a ∷ []) = refl
padding-to_base64 (a ∷ b ∷ []) = let (other, _) = digit-Names (joined a b 0) 6 in rw other refl
padding-to_base64 (a ∷ b ∷ c ∷ []) = let (other, _) = digit-Names (joined a b c) 0 in rw other refl
padding-to_base64 (a ∷ b ∷ c ∷ d ∷ []) = padding-to_base64 (d ∷ [])
padding-to_base64 (a ∷ b ∷ c ∷ d ∷ e ∷ []) = padding-to_base64 (d ∷ e ∷ [])
padding-to_base64 (a ∷ b ∷ c ∷ d ∷ e ∷ f ∷ bytes) = padding-to_base64 (d ∷ e ∷ f ∷ bytes)

length-to_base64 :
    (bytes : List ℕ)
    → (length (to_base64 bytes) % 4 ≡ 0)
      × (length (to_base64 bytes) / 4 * 3 ≡ length bytes + missing bytes)
unfolding to_base64
length-to_base64 [] = (refl, refl)
length-to_base64 (a ∷ []) = (refl, refl)
length-to_base64 (a ∷ b ∷ []) = (refl, refl)
length-to_base64 (a ∷ b ∷ c ∷ bytes) =
    let (r, q) = length-to_base64 bytes in (omega arith, omega arith)

abbrev pub Bytes : List ℕ → Type 0
Bytes [] = Unit {0}
Bytes (b ∷ bs) = (b < 256) × Bytes bs

-- The four values of three bytes give the bytes back.
abbrev value : ℕ → ℕ
value n = ((n / 2 ^ 18 % 64 * 64 + n / 2 ^ 12 % 64) * 64 + n / 2 ^ 6 % 64) * 64 + n / 2 ^ 0 % 64

value_whole : (a b c : ℕ) → a < 256 → b < 256 → c < 256 → value (joined a b c) ≡ joined a b c
value_whole a b c ha hb hc = omega arith

split_joined :
    (a b c : ℕ)
    → a < 256
    → b < 256
    → c < 256
    → (joined a b c / 65536 % 256 ≡ a) × ((joined a b c / 256 % 256 ≡ b) × (joined a b c % 256 ≡ c))
split_joined a b c ha hb hc = (omega arith, (omega arith, omega arith))

abbrev three : ℕ → List ℕ → List ℕ
three n bytes = n / 65536 % 256 ∷ n / 256 % 256 ∷ n % 256 ∷ bytes

three-joined :
    (a b c : ℕ) (bytes : List ℕ)
    → a < 256
    → b < 256
    → c < 256
    → three (value (joined a b c)) bytes ≡ a ∷ b ∷ c ∷ bytes
three-joined a b c bytes ha hb hc =
    let (x, (y, z)) = split_joined a b c ha hb hc in rw (value_whole a b c ha hb hc, x, y, z) refl

-- The loop reads the bytes, and a 0 for each `=`.
quads-to_base64 :
    (pad : ℕ) (bytes : List ℕ)
    → pad ≡ missing bytes
    → Bytes bytes
    → quads pad (to_base64 bytes) ≡ some (bytes ++ replicate pad 0)
unfolding quads to_base64 bytes_of sextet
quads-to_base64 pad [] e h = rw e refl
quads-to_base64 pad (a ∷ []) e h =
    let n = joined a 0 0 in
    let ha = h.0 in
    let closed : sextet pad 2 b'=' ≡ some 0 = rw e refl in
    let closed' : sextet pad 1 b'=' ≡ some 0 = rw e refl in
    let whole : ((n / 2 ^ 18 % 64 * 64 + n / 2 ^ 12 % 64) * 64 + 0) * 64 + 0 ≡ n = omega arith in
    let (x, (y, z)) = split_joined a 0 0 ha (omega arith) (omega arith) in
    rw (sextet-digit pad 4 n 18, sextet-digit pad 3 n 12, closed, closed', whole, x, y, z, e) refl
quads-to_base64 pad (a ∷ b ∷ []) e h =
    let n = joined a b 0 in
    let ha = h.0 in
    let hb = h.1.0 in
    let closed : sextet pad 1 b'=' ≡ some 0 = rw e refl in
    let whole : ((n / 2 ^ 18 % 64 * 64 + n / 2 ^ 12 % 64) * 64 + n / 2 ^ 6 % 64) * 64 + 0 ≡ n =
      omega arith in
    let (x, (y, z)) = split_joined a b 0 ha hb (omega arith) in
    rw
      (
        sextet-digit pad 4 n 18,
        sextet-digit pad 3 n 12,
        sextet-digit pad 2 n 6,
        closed,
        whole,
        x,
        y,
        z,
        e,
      )
      refl
quads-to_base64 pad (a ∷ b ∷ c ∷ bytes) e h =
    let n = joined a b c in
    rw
      (
        sextet-digit pad (4 + length (to_base64 bytes)) n 18,
        sextet-digit pad (3 + length (to_base64 bytes)) n 12,
        sextet-digit pad (2 + length (to_base64 bytes)) n 6,
        sextet-digit pad (1 + length (to_base64 bytes)) n 0,
        quads-to_base64 pad bytes e h.1.1.1,
      )
      (ap some (three-joined a b c (bytes ++ replicate pad 0) h.0 h.1.0 h.1.1.0))

-- Bytes are read back from their base64 text.
pub from_base64-to_base64 :
    (bytes : List ℕ) → Bytes bytes → from_base64 (to_base64 bytes) ≡ some bytes
unfolding from_base64
from_base64-to_base64 bytes h =
    let (whole, size) = length-to_base64 bytes in
    let quarter : (length (to_base64 bytes) % 4 == 0) ≡ true = ground arith in
    let back : length (to_base64 bytes) / 4 * 3 - missing bytes ≡ length bytes = omega arith in
    let read : quads (padding (to_base64 bytes)) (to_base64 bytes)
        ≡ some (bytes ++ replicate (missing bytes) 0) =
      rw (padding-to_base64 bytes) (quads-to_base64 (missing bytes) bytes refl h) in
    rw (quarter, read)
      (rw (padding-to_base64 bytes, back)
        (ap some (
          take-append (length bytes) bytes (replicate (missing bytes) 0) (omega arith)
          ∙ take_all bytes)))

missing-few : (bytes : List ℕ) → missing bytes ≤ 2
missing-few [] = omega arith
missing-few (a ∷ []) = omega arith
missing-few (a ∷ b ∷ []) = omega arith
missing-few (a ∷ b ∷ c ∷ bytes) = missing-few bytes

pub to_base64_short : (bytes : List ℕ) → length (to_base64 bytes) ≤ (length bytes + 2) / 3 * 4
to_base64_short bytes =
    let (whole, size) = length-to_base64 bytes in let few = missing-few bytes in omega arith
