-- ===== src/Codec/RoundTrip.antt =====
-- Decoding what was encoded gives the cells back.
use mathlib.Core.List.{append-nil, append_assoc}
use agentsimjs.Prelude.{
  ℕ, zero, suc, ◌+◌, ◌*◌, ◌/◌, ◌%◌, ◌^◌, ◌≤◌, ◌<◌, ◌≡◌, refl, ap, ◌∙◌, true, false, List, [], ◌∷◌,
  ◌++◌, ok, some, ltb, ◌==◌, length, drop, replicate, length-append, length-drop, length-replicate,
  arith, if_cases,
}
use agentsimjs.Codec.{
  Width, one_byte, two_bytes, same_run, varint_bytes, value_bytes, encode_runs, encode_bytes,
  varint, take_value, fill, decode_runs, decode_bytes,
}
use agentsimjs.Codec.Varint.{varint-varint_bytes}

-- A value of a typed array with elements of that width.
abbrev pub Fits : Width → ℕ → Type 0
Fits one_byte v = v < 256
Fits two_bytes v = v < 65536

abbrev pub AllFit : Width → List ℕ → Type 0
AllFit w [] = Unit {0}
AllFit w (v ∷ vs) = Fits w v × AllFit w vs

AllFit-drop : (w : Width) (n : ℕ) (vs : List ℕ) → AllFit w vs → AllFit w (drop n vs)
AllFit-drop w zero vs h = h
AllFit-drop w (suc n) [] h = tt
AllFit-drop w (suc n) (v ∷ vs) h = AllFit-drop w n vs h.1

-- A run and what follows it are the values.
abbrev pub Splits : ℕ → List ℕ → ℕ → Type 0
Splits v vs n = (replicate n v ++ drop n vs ≡ vs) × (n ≤ length vs)

pub same_run-Splits : (v : ℕ) (vs : List ℕ) → Splits v vs (same_run v vs)
unfolding same_run
same_run-Splits v [] = (refl, omega arith)
same_run-Splits v (x ∷ xs) =
    if_cases (Splits v (x ∷ xs)) (x == v)
      (λ e.
        let (h, l) = same_run-Splits v xs in
        let same : v ≡ x = ground arith in ((rw (h, same) refl), omega arith))
      (λ _. (refl, omega arith))

take_value-value_bytes :
    (w : Width) (v : ℕ) (rest : List ℕ)
    → Fits w v
    → take_value w (value_bytes w v ++ rest) ≡ some (v, rest)
unfolding take_value value_bytes
take_value-value_bytes one_byte v rest h = let e : v % 256 ≡ v = omega arith in rw e refl
take_value-value_bytes two_bytes v rest h =
    let e : v % 256 + v / 256 % 256 * 256 ≡ v = omega arith in rw e refl

value_bytes-positive : (w : Width) (v : ℕ) → 1 ≤ length (value_bytes w v)
unfolding value_bytes
value_bytes-positive one_byte v = omega arith
value_bytes-positive two_bytes v = omega arith

fill-fits :
    (cells run v : ℕ) (out : List ℕ)
    → length out + run ≤ cells
    → fill cells run v out ≡ ok (out ++ replicate run v)
unfolding fill
fill-fits cells run v out h =
    let e : ltb cells (length out + run) ≡ false = ground arith in rw e refl

-- One round of decoding, on bytes that start with a run.
decode_round :
    (w : Width) (cells fuel n v : ℕ) (out bytes rest rest' : List ℕ)
    → varint 0 0 bytes ≡ ok (suc n, rest)
    → take_value w rest ≡ some (v, rest')
    → length out + suc n ≤ cells
    → decode_runs w cells (suc fuel) out bytes
      ≡ decode_runs w cells fuel (out ++ replicate (suc n) v) rest'
unfolding decode_runs varint
decode_round w cells fuel n v out [] rest rest' e e' h = unread e
  where
    unread :
        varint 0 0 [] ≡ ok (suc n, rest)
        → decode_runs w cells (suc fuel) out []
          ≡ decode_runs w cells fuel (out ++ replicate (suc n) v) rest'
    unread e = cc
decode_round w cells fuel n v out (b ∷ bs) rest rest' e e' h =
    rw (e, decode_runs, e', fill-fits cells (suc n) v out h) refl

encode_length :
    (w : Width) (r v : ℕ) (rest : List ℕ)
    → suc (length rest) ≤ length (varint_bytes 4 r ++ (value_bytes w v ++ rest))
encode_length w r v rest =
    let a = length-append (varint_bytes 4 r) (value_bytes w v ++ rest) in
    let b = length-append (value_bytes w v) rest in let c = value_bytes-positive w v in omega arith

runs_decode :
    (w : Width) (cells fuel fuel' : ℕ) (out vs : List ℕ)
    → length vs ≤ fuel
    → length (encode_runs w fuel vs) ≤ fuel'
    → length out + length vs ≡ cells
    → cells < 2 ^ 32
    → AllFit w vs
    → decode_runs w cells fuel' out (encode_runs w fuel vs) ≡ ok (out ++ vs)
unfolding decode_runs encode_runs
runs_decode w cells fuel fuel' out [] enough more full small fits =
    let e : (length out == cells) ≡ true = ground arith in rw (e, append-nil out) refl
runs_decode w cells zero fuel' out (v ∷ vs) enough more full small fits = absurd (omega arith)
runs_decode w cells (suc fuel) zero out (v ∷ vs) enough more full small fits =
    let n = same_run v vs in
    let h = encode_length w (suc n) v (encode_runs w fuel (drop n vs)) in absurd (omega arith)
runs_decode w cells (suc fuel) (suc fuel') out (v ∷ vs) enough more full small fits =
    let n = same_run v vs in
    let rest = drop n vs in
    let (split, within) = same_run-Splits v vs in
    let left = length-drop n vs in
    let shorter = encode_length w (suc n) v (encode_runs w fuel rest) in
    let read =
      varint-varint_bytes 4 0 0 (suc n) (value_bytes w v ++ encode_runs w fuel rest) (omega arith)
        (omega arith) in
    let one : 0 + suc n * 2 ^ 0 ≡ suc n = omega arith in
    let out_length : length (out ++ replicate (suc n) v) + length rest ≡ cells =
      let a = length-append out (replicate (suc n) v) in
      let b = length-replicate (suc n) v in omega arith in
    let whole : (out ++ replicate (suc n) v) ++ rest ≡ out ++ v ∷ vs =
      append_assoc out (replicate (suc n) v) rest ∙ ap (λ xs. out ++ v ∷ xs) split in
    decode_round w cells fuel' n v out (encode_runs w (suc fuel) (v ∷ vs))
      (value_bytes w v ++ encode_runs w fuel rest) (encode_runs w fuel rest) (rw one at read)
      (take_value-value_bytes w v (encode_runs w fuel rest) fits.0) (omega arith)
    ∙ runs_decode w cells fuel fuel' (out ++ replicate (suc n) v) rest (omega arith) (omega arith)
        out_length small (AllFit-drop w n vs fits.1)
    ∙ ap ok whole

-- Decoding the bytes of a chunk of fewer than 2^32 cells gives its cells back, when each fits in the
-- width.
pub decode_bytes-encode_bytes :
    (w : Width) (vs : List ℕ)
    → length vs < 2 ^ 32
    → AllFit w vs
    → decode_bytes w (length vs) (encode_bytes w vs) ≡ ok vs
unfolding decode_bytes encode_bytes
decode_bytes-encode_bytes w vs small fits =
    runs_decode w (length vs) (length vs) (length (encode_runs w (length vs) vs)) [] vs
      (omega arith) (omega arith) (omega arith) small fits
