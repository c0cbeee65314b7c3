-- ===== src/Trace/Tests.antt =====
-- The buffer and the recorder at a short run: a cache of two records, and a profile that drops the
-- records with an odd body.
use Prim.Native.Nat.{ℕ, ◌%◌}
use agentsimjs.Prelude.{
  ◌≡◌, refl, true, false, List, [], ◌∷◌, none, some, arith, ◌==◌, drop, if◌then◌else◌,
}
use agentsimjs.Trace.{RecordInput}
use agentsimjs.Trace.Buffer.{new_buffer, hold_unpersisted, push, trim, mark_persisted, since}
use agentsimjs.Trace.Buffer.Invariant.{forgotten}
use agentsimjs.Trace.Buffer.Retention.{
  apply, Op, pushes, marks, Traced, history, IsTrace, history-IsTrace, history_holds_unpersisted,
}
use agentsimjs.Trace.Handover.{default_flow_control, PersistedHead, stale}
use agentsimjs.Trace.Recorder.{
  backlog, Rules, new_recorder, collect, header_stored, take_fresh, gather, dispatch_all, persisted,
  flush, update_waiting,
}
use agentsimjs.Trace.Recorder.Effects.{batched, kept}
use agentsimjs.Trace.Recorder.Runs.{
  Run, emits, collects, stores_header, saves, Reach, here, next, new_run, emit,
  recorded_run_complete,
}
use agentsimjs.Trace.Recorder.Hysteresis.{FlowControlled, Reach-FlowControlled}

abbrev input : ℕ → ℕ → RecordInput ℕ
input t b = record { sim_time = t; body = b }

abbrev rules : Rules ℕ
rules = record {
  filter_record = λ r. if r.body % 2 == 0 then some r else none;
  redact = λ r. r;
  weigh = λ r. 160;
  is_pose = λ r. false;
}

abbrev blank : Traced ℕ
blank = record { buffer = hold_unpersisted (new_buffer "run-000001" 2); emitted = [] }

blank-IsTrace : IsTrace 0 0 blank
unfolding new_buffer hold_unpersisted
blank-IsTrace = record {
  counted = omega arith;
  window = refl;
  fits = omega arith;
  numbered = tt;
  rising = tt;
  latest = refl;
  saved = omega arith;
}

abbrev ops : List (Op ℕ)
ops =
    pushes 1000 (input 1 10) "world/sim"
    ∷ pushes 1001 (input 2 11) "uav-001/body"
    ∷ marks 1
    ∷ pushes 1002 (input 2 12) "world/sim"
    ∷ pushes 1003 (input 1 13) "world/sim"
    ∷ pushes 1004 (input 4 14) "world/sim"
    ∷ []

history-IsTrace_example : IsTrace 0 0 (history ops blank)
history-IsTrace_example = history-IsTrace 0 0 ops blank blank-IsTrace

history_holds_unpersisted_example :
    since 1 (history ops blank).buffer ≡ drop 1 (history ops blank).emitted
unfolding history apply push trim mark_persisted new_buffer hold_unpersisted
history_holds_unpersisted_example =
    history_holds_unpersisted 0 0 ops blank 1 blank-IsTrace refl refl (omega arith)

-- Three records are left: the one with number 0 was saved and forgotten, and the one whose time lay
-- before the last one was refused.
history_runs : ((history ops blank).buffer.seq ≡ 4) × (forgotten 0 (history ops blank).buffer ≡ 1)
unfolding history apply push trim mark_persisted new_buffer hold_unpersisted
history_runs = (refl, refl)

abbrev saved_head : PersistedHead
saved_head = record { run_id = "run-000001"; through = 2; tick = 1; sim_time_s = 2 }

abbrev fresh_run : Run ℕ ℕ
fresh_run = new_run rules (λ (i : ℕ). i) "run-000001" 2 default_flow_control true

abbrev final_run : Run ℕ ℕ
final_run =
    let s1 = emit 1000 (input 1 10) "world/sim" fresh_run in
    let s2 = emit 1001 (input 2 11) "uav-001/body" s1 in
    let s3 = record s2 { recorder = header_stored s2.recorder } in
    let s4 = record s3 { recorder = collect rules 1 2 s3.recorder } in
    let s5 = record s4 { recorder = persisted saved_head s4.recorder } in
    emit 1002 (input 2 12) "world/sim" s5

steps : Reach rules (λ (i : ℕ). i) fresh_run final_run
unfolding emit header_stored collect take_fresh gather dispatch_all flush update_waiting
    new_recorder new_buffer hold_unpersisted apply push trim since
steps =
    let two_emitted =
      next (next here (emits 1000 (input 1 10) "world/sim"))
        (emits 1001 (input 2 11) "uav-001/body") in
    let collected = next (next two_emitted stores_header) (collects 1 2) in
    next (next collected (saves saved_head (omega arith))) (emits 1002 (input 2 12) "world/sim")

recorded_run_complete_example :
    batched (collect rules 1 2 final_run.recorder).sent ≡ kept rules final_run.emitted
unfolding emit header_stored collect take_fresh gather dispatch_all flush update_waiting
    new_recorder new_buffer hold_unpersisted apply push trim since persisted stale
recorded_run_complete_example =
    recorded_run_complete rules (λ (i : ℕ). i) "run-000001" 2 default_flow_control true
      {t = final_run} 1 2 steps refl

fresh-FlowControlled : FlowControlled fresh_run.recorder
unfolding new_recorder backlog
fresh-FlowControlled = record {
  marks = (omega arith, omega arith);
  paced = record { runs = λ _. (omega arith, omega arith); waits = λ e. cc e };
}

Reach-FlowControlled_example : FlowControlled final_run.recorder
Reach-FlowControlled_example = Reach-FlowControlled rules (λ (i : ℕ). i) steps fresh-FlowControlled
