-- ===== src/Strategy/Runner/Machine/Host.antt =====
-- A host that asks the runner for searches, answers them and takes the outcome.
use agentsimjs.Prelude.{
  ℕ, zero, suc, ◌≡◌, refl, sym, ap, ◌∙◌, subst, false, Option, none, some, ok, err, Outcome,
  returned, threw, settle,
}
use agentsimjs.Strategy.Runner.{StageSpec, NodeResult, Log, Gen, finished, search, threw_error}
use agentsimjs.Strategy.Runner.Delivers.{Service, drive}
use agentsimjs.Strategy.Runner.Bounds.{AtMost}
use agentsimjs.Strategy.Runner.Machine.{
  StrategyRunner, RunnerError, RunnerOutcome, new_runner, advance, current, complete, outcome,
}

module _ {W : Type 0} (service : Service W) where
  abbrev after_complete :
      (StrategyRunner W → Option (RunnerOutcome W))
      → Outcome RunnerError (Unit {0}) (StrategyRunner W)
      → Option (RunnerOutcome W)
  after_complete next (returned _ s) = next s
  after_complete next (threw e s) = none

  abbrev after_current :
      (StrategyRunner W → Option (RunnerOutcome W))
      → Outcome RunnerError (Option (StageSpec W)) (StrategyRunner W)
      → Option (RunnerOutcome W)
  after_current next (threw e s) = none
  after_current next (returned none s) = elim (outcome s) [ ok o ↦ o | err e ↦ none ]
  after_current next (returned (some spec) s) =
      after_complete next
        (complete (service spec s.log).0 (record s { log = (service spec s.log).1 }))

  -- Each search is answered, at most `n` of them, with what may have been taken from the log.
  unfoldable pub host : ℕ → StrategyRunner W → Option (RunnerOutcome W)
  unfolding complete outcome
  host zero s = after_current (λ _. none) (current s)
  host (suc n) s = after_current (host n) (current s)

  abbrev pub outcome_of : NodeResult W → RunnerOutcome W
  outcome_of r = record { status = r.status; cells = r.cells; cost = r.cost }

  abbrev log_of : Gen W → Log W → Log W
  log_of (finished r log) d = log
  log_of (search spec log answer) d = log
  log_of threw_error d = d

  abbrev at : (Log W → Gen W) → Gen W → Log W → StrategyRunner W
  at begin g d = record { begin = begin; pending = some g; closed = false; log = log_of g d }

  advance-at :
      (begin : Log W → Gen W) (pending : Option (Gen W)) (log : Log W) (g : Gen W)
      (r : NodeResult W)
      → drive service g ≡ some r
      → (asked : Option (StageSpec W)) × (advance g
            (record { begin = begin; pending = pending; closed = false; log = log })
          ≡ returned asked (at begin g log))
  unfolding drive advance
  advance-at begin pending log (finished r' l) r e = (none, refl)
  advance-at begin pending log (search spec l k) r e = (some spec, refl)
  advance-at begin pending log threw_error r e = cc e

  host-at :
      (begin : Log W → Gen W) (d : Log W) (n : ℕ) (g : Gen W) (r : NodeResult W)
      → AtMost n g
      → drive service g ≡ some r
      → host n (at begin g d) ≡ some (outcome_of r)
  unfolding host drive AtMost current complete outcome
  host-at begin d zero (finished r' l) r h e = cc e
  host-at begin d (suc n) (finished r' l) r h e = cc e
  host-at begin d n threw_error r h e = cc e
  host-at begin d zero (search spec l k) r h e = absurd h
  host-at begin d (suc n) (search spec l k) r h e =
      let fb = (service spec l).0 in
      let log' = (service spec l).1 in
      let g = k fb log' in
      let (asked, q) = advance-at begin (some (search spec l k)) log' g r e in
      subst
        (λ o.
          after_complete (host n) (settle o (λ _ s. returned tt s) (λ x s. threw x s))
          ≡ some (outcome_of r))
        (sym q) (host-at begin log' n g r (h fb log') e)

  current-at :
      (begin : Log W → Gen W) (pending : Option (Gen W)) (log : Log W) (g : Gen W)
      (r : NodeResult W)
      → drive service g ≡ some r
      → advance g (record { begin = begin; pending = pending; closed = false; log = log })
        ≡ current (at begin g log)
  unfolding drive advance current
  current-at begin pending log (finished r' l) r e = refl
  current-at begin pending log (search spec l k) r e = refl
  current-at begin pending log threw_error r e = cc e

  host_cong : (n : ℕ) (s t : StrategyRunner W) → current s ≡ current t → host n s ≡ host n t
  unfolding host
  host_cong zero s t h = ap (after_current (λ _. none)) h
  host_cong (suc n) s t h = ap (after_current (host n)) h

  -- A runner whose generator runs to a result, whatever its caller takes of the log between searches, gives
  -- that result as its outcome, when `n` searches suffice and each that it asks for is answered once.
  pub host-drive :
      (begin : Log W → Gen W) (n : ℕ) (r : NodeResult W)
      → AtMost n (begin (new_runner begin).log)
      → drive service (begin (new_runner begin).log) ≡ some r
      → host n (new_runner begin) ≡ some (outcome_of r)
  unfolding new_runner current
  host-drive begin n r h e =
      let log = (new_runner begin).log in
      let g = begin log in
      host_cong n (new_runner begin) (at begin g log) (current-at begin none log g r e)
      ∙ host-at begin log n g r h e
