-- ===== src/Grid/Index.antt =====
-- Cells of a layer and their places in chunks are one to one.
use agentsimjs.Prelude.{ℕ, ◌+◌, ◌-◌, ◌*◌, ◌/◌, ◌%◌, ◌<◌, ◌≤◌, ap, ◌≡◌, arith}
use agentsimjs.Grid.{offset_of}

quotient_unique : (a b c d n : ℕ) → b < n → d < n → a * n + b ≡ c * n + d → a ≡ c
quotient_unique a b c d n h k e = grind arith

pub within : (j n : ℕ) → 0 < n → j - j / n * n < n
within j n h = omega arith

pub chunk_within : (i n m : ℕ) → 0 < n → i < m * n → i / n < m
chunk_within i n m h k = grind arith

below_square : (a b n : ℕ) → a < n → b < n → a * n + b < n * n
below_square a b n h k = grind arith

start_le : (j n : ℕ) → 0 < n → j / n * n ≤ j
start_le j n h = omega arith

pub offset_within : (n i j : ℕ) → 0 < n → offset_of n i j < n * n
offset_within n i j h = below_square (j - j / n * n) (i - i / n * n) n (within j n h) (within i n h)

pub same_cell :
    (n m i j i' j' : ℕ)
    → 0 < n
    → i < m * n
    → i' < m * n
    → j' / n * m + i' / n ≡ j / n * m + i / n
    → offset_of n i' j' ≡ offset_of n i j
    → (i' ≡ i) × (j' ≡ j)
same_cell n m i j i' j' h k k' e f =
    let c =
      quotient_unique (j' / n) (i' / n) (j / n) (i / n) m (chunk_within i' n m h k')
        (chunk_within i n m h k) e in
    let r =
      quotient_unique (j' - j' / n * n) (i' - i' / n * n) (j - j / n * n) (i - i / n * n) n
        (within i' n h) (within i n h) f in
    let p : j' / n * n ≡ j / n * n = ap (λ x. x * n) c in
    let q : j' / n * m ≡ j / n * m = ap (λ x. x * m) c in
    let d : i' / n ≡ i / n = omega arith in
    let o : i' / n * n ≡ i / n * n = ap (λ x. x * n) d in
    let t : (j' - j' / n * n) * n ≡ (j - j / n * n) * n = ap (λ x. x * n) r in
    let a = start_le j n h in
    let a' = start_le j' n h in
    let b = start_le i n h in let b' = start_le i' n h in (omega arith, omega arith)

pub same_chunk : (m a b a' b' : ℕ) → a < m → a' < m → b' * m + a' ≡ b * m + a → (a' ≡ a) × (b' ≡ b)
same_chunk m a b a' b' h h' e =
    let c = quotient_unique b' a' b a m h' h e in
    let p : b' * m ≡ b * m = ap (λ x. x * m) c in (omega arith, c)

-- Cells stand row after row.
pub offset_of-row : (n x y : ℕ) → 0 < n → offset_of n x y ≡ y % n * n + x % n
offset_of-row n x y h =
    let p : y - y / n * n ≡ y % n = omega arith in
    let q : x - x / n * n ≡ x % n = omega arith in cc (p, q)
