-- ===== src/Mission/Position.antt =====
-- The state of a mission as one number, which a snapshot keeps.
use agentsimjs.Prelude.{
  ℕ, zero, suc, ◌/◌, ◌%◌, ◌<◌, ◌≡◌, refl, true, ◌&&◌, Ensures, Outcome, returned, leb, ◌==◌, arith,
  if_cases, if◌then◌else◌,
}
use agentsimjs.Mission.{
  Brain, PositionError, Phase, ready, running, stopped, done, phase_index, phase_at, position,
  is_ready, restore_position,
}
use agentsimjs.Mission.Order.{InPhase, IsState}

phase_at-phase_index : (p : Phase) → phase_at (phase_index p) ≡ p
phase_at-phase_index ready = refl
phase_at-phase_index running = refl
phase_at-phase_index stopped = refl
phase_at-phase_index done = refl

split_position : (b : Brain) → (position b / 4 ≡ b.cursor) × (position b % 4 ≡ phase_index b.phase)
unfolding position
split_position b = ground arith

valid_state :
    (n cursor : ℕ) (p : Phase)
    → InPhase n cursor p
    → (leb cursor n && (if is_ready p then cursor == 0 else leb 1 cursor)) ≡ true
unfolding is_ready
valid_state n cursor ready h = ground arith
valid_state n cursor running h = ground arith
valid_state n cursor stopped h = ground arith
valid_state n cursor done h = ground arith

state_valid :
    (n cursor : ℕ) (p : Phase)
    → (leb cursor n && (if is_ready p then cursor == 0 else leb 1 cursor)) ≡ true
    → InPhase n cursor p
unfolding is_ready
state_valid n cursor ready h = ground arith
state_valid n cursor running h = ground arith
state_valid n cursor stopped h = ground arith
state_valid n cursor done h = ground arith

-- Every state of a mission of `n` steps is restored from its number, into any mind.
pub restore_position-position :
    (n : ℕ) (b c : Brain) → IsState n b → restore_position n (position b) c ≡ returned tt b
unfolding restore_position
restore_position-position n b c v =
    let (q, r) = split_position b in
    rw (q, r, phase_at-phase_index b.phase, valid_state n b.cursor b.phase v)

phase_index-phase_at : (k : ℕ) → k < 4 → phase_index (phase_at k) ≡ k
phase_index-phase_at zero h = refl
phase_index-phase_at (suc zero) h = refl
phase_index-phase_at (suc (suc zero)) h = refl
phase_index-phase_at (suc (suc (suc zero))) h = refl
phase_index-phase_at (suc (suc (suc (suc k)))) h = absurd (omega arith)

abbrev Restored : ℕ → ℕ → Brain → Outcome PositionError Unit Brain → Type 0
Restored n p c = Ensures (λ _ b. IsState n b × (position b ≡ p)) (λ _ b. b ≡ c)

-- What a restore accepts is a state of the list, and the one that the number stands for; any other
-- number is refused and changes nothing.
pub position-restore_position :
    (n p : ℕ) (c : Brain)
    → Ensures (λ _ b. IsState n b × (position b ≡ p)) (λ _ b. b ≡ c) (restore_position n p c)
unfolding restore_position position
position-restore_position n p c =
    let phase = phase_at (p % 4) in
    if_cases (Restored n p c)
      (leb (p / 4) n && (if is_ready phase then p / 4 == 0 else leb 1 (p / 4)))
      (λ valid. (
        state_valid n (p / 4) phase valid,
        omega (arith, phase_index-phase_at (p % 4) (omega arith)),
      ))
      (λ _. refl)
