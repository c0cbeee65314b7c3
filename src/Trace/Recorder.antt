-- ===== src/Trace/Recorder.antt =====
-- packages/trace/src/recorder.ts: the recorder at the producer. The profile's filter (levels.ts),
-- the redaction of credentials (redact.ts), the channel test (channels.ts) and the weights of
-- records and items are arguments. What is handed to the storage worker is the list `sent`, oldest
-- first.
pub mod Effects
pub mod NoLoss
pub mod Runs
pub mod Hysteresis
use agentsimjs.Prelude.{
  ℕ, zero, suc, ◌+◌, ◌-◌, String, Bool, true, false, not, ◌&&◌, ◌||◌, List, [], ◌∷◌, ◌++◌, Option,
  none, some, Outcome, returned, threw, ltb, leb, ◌==◌, length, if◌then◌else◌,
}
use text.Mathlib.Text.{◌==◌ as str_eq}
use agentsimjs.Trace.{TraceRecord}
use agentsimjs.Trace.Handover.{
  RecorderBatch, PersistedHead, SimHead, FlowControl, Backlog, InFlight, Sent, batch, item,
  sum_records, sum_bytes, next_waiting, touched, shift_saved, stale, after_last,
}
use agentsimjs.Trace.Buffer.{TraceBuffer, since, mark_persisted, hold_unpersisted}

pub record RunRecorder (B I : Type 0) : Type 0 where
  pub buffer : TraceBuffer B
  pub flow : FlowControl
  pub has_item_channel : Bool
  pub outbox : List I
  pub items_sent : ℕ
  pub cursor : ℕ
  pub held_bytes : ℕ
  pub is_waiting : Bool
  pub header : Bool
  pub held : List (TraceRecord B)
  pub panel : List (TraceRecord B)
  pub in_flight : List InFlight
  pub through : ℕ
  pub handed_over : ℕ
  pub sim : SimHead
  pub persisted_at : Option PersistedHead
  pub sent : List (Sent B I)

pub data RecorderError : Type 0 where
  no_channel : RecorderError

module _ {B I : Type 0} where
  unfoldable pub new_recorder : TraceBuffer B → FlowControl → Bool → ℕ → RunRecorder B I
  new_recorder buffer flow has_item_channel from_seq = record {
    buffer = hold_unpersisted buffer;
    flow = flow;
    has_item_channel = has_item_channel;
    outbox = [];
    items_sent = 0;
    cursor = from_seq;
    held_bytes = 0;
    is_waiting = false;
    header = false;
    held = [];
    panel = [];
    in_flight = [];
    through = 0;
    handed_over = 0;
    sim = record { tick = 0; sim_time_s = 0 };
    persisted_at = none;
    sent = [];
  }

  unfoldable pub backlog : RunRecorder B I → Backlog
  backlog r = record {
    records = sum_records r.in_flight (length r.held);
    bytes = sum_bytes r.in_flight r.held_bytes;
  }

  unfoldable pub update_waiting : RunRecorder B I → RunRecorder B I
  unfolding next_waiting backlog
  update_waiting r = record r { is_waiting = next_waiting r.flow (backlog r) r.is_waiting }

  unfoldable pub dispatch : I → RunRecorder B I → RunRecorder B I
  dispatch i r = record r { items_sent = r.items_sent + 1; sent = r.sent ++ item i ∷ [] }

  unfoldable pub dispatch_all : List I → RunRecorder B I → RunRecorder B I
  unfolding dispatch
  dispatch_all [] r = r
  dispatch_all (i ∷ is) r = dispatch_all is (dispatch i r)

  unfoldable pub is_idle : RunRecorder B I → Bool
  is_idle r = length r.held == 0 && length r.in_flight == 0 && r.items_sent == 0

  unfoldable pub flush : RunRecorder B I → RunRecorder B I
  unfolding is_idle
  flush r =
      if is_idle r then record r { persisted_at = touched r.sim r.persisted_at } else record r {
        held = [];
        items_sent = 0;
        in_flight =
            r.in_flight
            ++ record { through = r.through; records = length r.held; bytes = r.held_bytes } ∷ [];
        held_bytes = 0;
        sent =
            r.sent
            ++ batch (record {
              run_id = r.buffer.run_id;
              records = r.held;
              through = r.through;
              tick = r.sim.tick;
              sim_time_s = r.sim.sim_time_s;
            })
              ∷ [];
      }

  unfoldable pub header_stored : RunRecorder B I → RunRecorder B I
  header_stored r =
      if r.header
      then r
      else update_waiting (flush (dispatch_all r.outbox (record r { header = true; outbox = [] })))

  unfoldable pub enqueue :
      (I → ℕ) → I → RunRecorder B I → Outcome RecorderError Unit (RunRecorder B I)
  enqueue item_bytes i r =
      if r.has_item_channel
      then (let r' = record r { held_bytes = r.held_bytes + item_bytes i } in
          returned tt (
            update_waiting
              (if r.header then dispatch i r' else record r' { outbox = r'.outbox ++ i ∷ [] })))
      else threw no_channel r

  unfoldable pub persisted : PersistedHead → RunRecorder B I → RunRecorder B I
  persisted head r =
      if str_eq head.run_id r.buffer.run_id
      then (if stale head r.persisted_at
          then r
          else update_waiting (record r {
            in_flight = shift_saved head.through r.in_flight;
            buffer = mark_persisted head.through r.buffer;
            persisted_at = some head;
          }))
      else r

  unfoldable pub take_panel : RunRecorder B I → List (TraceRecord B) × RunRecorder B I
  take_panel r = (r.panel, record r { panel = [] })

-- What the profile, the redaction and the channels say of a record.
pub record Rules (B : Type 0) : Type 0 where
  pub filter_record : TraceRecord B → Option (TraceRecord B)
  pub redact : TraceRecord B → TraceRecord B
  pub weigh : TraceRecord B → ℕ
  pub is_pose : TraceRecord B → Bool

module _ {B I : Type 0} (rules : Rules B) where
  unfoldable pub gather_one : Option (TraceRecord B) → RunRecorder B I → RunRecorder B I
  gather_one none r = r
  gather_one (some kept) r =
      let safe = rules.redact kept in
      record r {
        held = r.held ++ safe ∷ [];
        handed_over = r.handed_over + 1;
        held_bytes = r.held_bytes + rules.weigh safe;
        panel = if rules.is_pose safe then r.panel else r.panel ++ safe ∷ [];
      }

  unfoldable pub gather : List (TraceRecord B) → RunRecorder B I → RunRecorder B I
  unfolding gather_one
  gather [] r = r
  gather (x ∷ xs) r = gather xs (gather_one (rules.filter_record x) r)

  unfoldable pub take_fresh : List (TraceRecord B) → RunRecorder B I → RunRecorder B I
  take_fresh [] r = r
  take_fresh (x ∷ xs) r =
      gather (x ∷ xs)
        (record r { cursor = after_last r.cursor (x ∷ xs); through = after_last r.cursor (x ∷ xs) })

  unfoldable pub collect : ℕ → ℕ → RunRecorder B I → RunRecorder B I
  collect tick sim_time_s r =
      let r' =
        take_fresh (since r.cursor r.buffer)
          (record r { sim = record { tick = tick; sim_time_s = sim_time_s } }) in
      update_waiting (if r'.header then flush r' else r')
