-- ===== src/Codec/Varint.antt =====
-- Run lengths as groups of seven bits, lowest first.
use agentsimjs.Prelude.{
  ℕ, zero, suc, ◌+◌, ◌*◌, ◌/◌, ◌%◌, ◌^◌, ◌≤◌, ◌<◌, ◌≡◌, refl, ap, ◌∙◌, true, false, List, ◌++◌, inl,
  inr, ok, ltb, leb, arith, Bool-cases,
}
use native.Mathlib.Nat.{pow-succ', add-mul, mul_assoc}
use agentsimjs.Codec.{varint_bytes, varint}

-- What `fuel + 1` groups hold.
abbrev pub capacity : ℕ → ℕ
capacity zero = 128
capacity (suc n) = 128 * capacity n

power-step : (s : ℕ) → 2 ^ (s + 7) ≡ 128 * 2 ^ s
power-step s =
    let double : (n : ℕ) → 2 ^ suc n ≡ 2 * 2 ^ n = λ n. pow-succ' 2 n in
    let e : s + 7 ≡ suc (suc (suc (suc (suc (suc (suc s)))))) = omega arith in
    rw e (
      rw
        (
          double (suc (suc (suc (suc (suc (suc s)))))),
          double (suc (suc (suc (suc (suc s))))),
          double (suc (suc (suc (suc s)))),
          double (suc (suc (suc s))),
          double (suc (suc s)),
          double (suc s),
          double s,
        )
        (omega arith))

expand : (q m p : ℕ) → m * p + q * (128 * p) ≡ (q * 128 + m) * p
expand q m p = rw (add-mul (q * 128) m p, mul_assoc q 128 p) (omega arith)

carry : (r p : ℕ) → r % 128 * p + r / 128 * (128 * p) ≡ r * p
carry r p =
    let e : r / 128 * 128 + r % 128 ≡ r = omega arith in
    expand (r / 128) (r % 128) p ∙ ap (λ n. n * p) e

pub varint-varint_bytes :
    (fuel shift acc r : ℕ) (rest : List ℕ)
    → r < capacity fuel
    → shift + 7 * fuel ≤ 28
    → varint shift acc (varint_bytes fuel r ++ rest) ≡ ok (acc + r * 2 ^ shift, rest)
unfolding varint varint_bytes
varint-varint_bytes zero shift acc r rest small low =
    let fits : ltb 28 shift ≡ false = ground arith in
    let last : ltb r 128 ≡ true = ground arith in
    let same : r % 128 ≡ r = omega arith in rw (fits, last, same) refl
varint-varint_bytes (suc fuel) shift acc r rest small low = elim (Bool-cases (leb 128 r)) [
  | inl e ↦
      let fits : ltb 28 shift ≡ false = ground arith in
      let going : ltb (r % 128 + 128) 128 ≡ false = ground arith in
      let same : (r % 128 + 128) % 128 ≡ r % 128 = omega arith in
      let h =
        varint-varint_bytes fuel (shift + 7) (acc + r % 128 * 2 ^ shift) (r / 128) rest
          (omega arith) (omega arith) in
      let sum : acc + r % 128 * 2 ^ shift + r / 128 * 2 ^ (shift + 7) ≡ acc + r * 2 ^ shift =
        let c = carry r (2 ^ shift) in rw (power-step shift) (omega arith) in
      rw (e, fits, going, same, h, sum) refl
  | inr e ↦
      let fits : ltb 28 shift ≡ false = ground arith in
      let last : ltb r 128 ≡ true = ground arith in
      let same : r % 128 ≡ r = ground arith in rw (e, fits, last, same) refl
]
