-- ===== src/Strategy/Runner/Machine.antt =====
-- The class StrategyRunner: the generator behind `current`, `complete`, `drainLegs` and `outcome`.
-- A generator that threw is finished, and gives no value from then on.
pub mod Host
pub mod Accepted
use agentsimjs.Prelude.{
  ℕ, zero, suc, Bool, List, [], true, false, if◌then◌else◌, Option, none, some, Result, ok, err,
  Outcome, returned, threw, settle,
}
use agentsimjs.Strategy.Runner.{
  Status, StageSpec, StageFeedback, NodeResult, LegReady, Log, Gen, finished, search, threw_error,
}

-- `begin` is the generator before its first `next`, `pending` what `next` last gave, where `threw_error`
-- stands for the end without a value that a generator gives once it has thrown, and is then `closed`.
pub record StrategyRunner (W : Type 0) : Type 0 where
  pub begin : Log W → Gen W
  pub pending : Option (Gen W)
  pub closed : Bool
  pub log : Log W

pub data RunnerError : Type 0 where
  condition_no_longer_compiles complete_without_search outcome_without_value : RunnerError

pub record RunnerOutcome (W : Type 0) : Type 0 where
  pub status : Status
  pub cells : List ℕ
  pub cost : W

module _ {W : Type 0} where
  unfoldable pub new_runner : (Log W → Gen W) → StrategyRunner W
  new_runner g = record {
    begin = g;
    pending = none;
    closed = false;
    log = record { selects = []; searches = []; thinned = none; legs = [] };
  }

  -- what `gen.next` gives, kept as `pending`
  unfoldable pub advance :
      Gen W → StrategyRunner W → Outcome RunnerError (Option (StageSpec W)) (StrategyRunner W)
  advance (finished r log') s =
      returned none (record s { pending = some (finished r log'); log = log' })
  advance (search spec log' answer) s =
      returned (some spec) (record s { pending = some (search spec log' answer); log = log' })
  advance threw_error s = threw condition_no_longer_compiles (record s { closed = true })

  -- `gen.next`, with the generator's next state where it has not thrown yet
  unfoldable pub gen_next :
      Gen W → StrategyRunner W → Outcome RunnerError (Option (StageSpec W)) (StrategyRunner W)
  unfolding advance
  gen_next g s =
      if s.closed then returned none (record s { pending = some threw_error }) else advance g s

  unfoldable pub current :
      StrategyRunner W → Outcome RunnerError (Option (StageSpec W)) (StrategyRunner W)
  unfolding gen_next
  current s = elim s.pending [
    | none ↦ gen_next (s.begin s.log) s
    | some g ↦ elim g [
      | search spec log' answer ↦ returned (some spec) s
      | finished r log' ↦ returned none s
      | threw_error ↦ returned none s
    ]
  ]

  unfoldable pub complete :
      StageFeedback W → StrategyRunner W → Outcome RunnerError (Unit {0}) (StrategyRunner W)
  unfolding gen_next
  complete fb s = elim s.pending [
    | none ↦ threw complete_without_search s
    | some g ↦ elim g [
      | search spec log' answer ↦
          settle (gen_next (answer fb s.log) s) (λ _ s'. returned tt s') (λ e s'. threw e s')
      | finished r log' ↦ threw complete_without_search s
      | threw_error ↦ threw complete_without_search s
    ]
  ]

  unfoldable pub drain_legs : StrategyRunner W → List (LegReady W) × StrategyRunner W
  drain_legs s = (s.log.legs, record s { log = record s.log { legs = [] } })

  unfoldable pub outcome : StrategyRunner W → Result RunnerError (Option (RunnerOutcome W))
  outcome s = elim s.pending [
    | none ↦ ok none
    | some g ↦ elim g [
      | finished r log' ↦ ok (some (record { status = r.status; cells = r.cells; cost = r.cost }))
      | search spec log' answer ↦ ok none
      | threw_error ↦ err outcome_without_value
    ]
  ]
