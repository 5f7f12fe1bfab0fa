-- ===== src/Scheduler.antt =====
-- src/scheduler.js: `handleScheduledTick`, one tick of the cron trigger. What it calls in other files
-- is a record of services; a service that rejects or throws gives `none` or `false`, and then has no
-- effect on the database.
pub mod Counts
pub mod Batches
pub mod Groups
pub mod Effects
pub mod Account
pub mod Ends
mod Tests
use web_resource_ledger.Prelude.{
  ℕ, zero, suc, ◌+◌, List, [], ◌∷◌, ◌++◌, Option, none, some, Bool, true, false, not, if◌then◌else◌,
  length, take, drop, ◌==◌,
}
use web_resource_ledger.Prelude.Results.{Result, ok, err, ◌>>=◌}
use web_resource_ledger.Prelude.Texts.{Text, text_eq}

pub record Schedule : Type 0 where
  pub id : Text
  pub tenant_id : Text
  pub url : Text
  pub cron : Text

pub record Message : Type 0 where
  pub capture_id : Text
  pub message_url : Text
  pub message_tenant : Text
  pub schedule_id : Text

-- The `last_capture_status` that a schedule is advanced with.
pub data Dispatch : Type 0 where
  pending skipped blocked : Dispatch

-- What a tick does to the database and to the notifications, in order.
pub data Effect : Type 0 where
  created : Text → Schedule → Effect
  advanced : Schedule → Text → Option Text → Dispatch → Effect
  notified : Text → Effect

pub record QuotaAnswer : Type 0 where
  pub allowed : Bool
  pub sends_email : Bool

-- `next_run_after` is taken at the trigger time. A threat check that fails counts as safe, as the tick
-- takes it.
pub record Services : Type 0 where
  pub check_quota : Text → ℕ → Option QuotaAnswer
  pub is_safe : Text → Bool
  pub capture_id_for : Schedule → Text
  pub creates : Schedule → Bool
  pub next_run_after : Text → Option Text
  pub advances : Schedule → Bool
  pub sends : List Message → Bool

-- The variables of a tick.
pub record Tick : Type 0 where
  pub messages : List Message
  pub executed : ℕ
  pub skipped_count : ℕ
  pub effects : List Effect

abbrev pub no_tick : Tick
no_tick = record { messages = []; executed = 0; skipped_count = 0; effects = [] }

abbrev pub skip : ℕ → Tick → Tick
skip n t = record t { skipped_count = t.skipped_count + n }

abbrev pub perform : Effect → Tick → Tick
perform e t = record t { effects = t.effects ++ (e ∷ []) }

abbrev pub message_for : Schedule → Text → Message
message_for s capture = record {
  capture_id = capture;
  message_url = s.url;
  message_tenant = s.tenant_id;
  schedule_id = s.id;
}

abbrev pub execute : Schedule → Text → Tick → Tick
execute s capture t = record t {
  messages = t.messages ++ (message_for s capture ∷ []);
  executed = t.executed + 1;
}

-- `byTenant`, with the tenants and the schedules of a tenant in their first order.
unfoldable pub add_to_group : Schedule → List (Text × List Schedule) → List (Text × List Schedule)
add_to_group s [] = (s.tenant_id, s ∷ []) ∷ []
add_to_group s ((tenant, schedules) ∷ groups) =
    if text_eq tenant s.tenant_id
    then (tenant, schedules ++ (s ∷ [])) ∷ groups
    else (tenant, schedules) ∷ add_to_group s groups

unfoldable pub group_by_tenant :
    List Schedule → List (Text × List Schedule) → List (Text × List Schedule)
group_by_tenant [] groups = groups
group_by_tenant (s ∷ due) groups = group_by_tenant due (add_to_group s groups)

-- `sendBatch` on chunks of at most 100 messages, up to the first failure: the chunks sent.
unfoldable pub send_chunks : (List Message → Bool) → ℕ → List Message → List (List Message)
send_chunks sends zero messages = []
send_chunks sends (suc fuel) messages =
    let rest = send_chunks sends fuel (drop 100 messages) in
    if length messages == 0
    then []
    else if sends (take 100 messages)
    then take 100 messages ∷ rest
    else []

module _ (services : Services) where
  abbrev pub advance : Schedule → Text → Option Text → Dispatch → Tick → Tick
  advance s next_run_at capture status t =
      if services.advances s then perform (advanced s next_run_at capture status) t else t

  -- A tenant without quota: its schedule is only moved on.
  unfoldable pub skip_schedule : Tick → Schedule → Tick
  skip_schedule t s = elim (services.next_run_after s.cron) [
    | none ↦ skip 1 t
    | some next_run_at ↦ skip 1 (advance s next_run_at none skipped t)
  ]

  unfoldable pub skip_all : Tick → List Schedule → Tick
  skip_all t [] = t
  skip_all t (s ∷ schedules) = skip_all (skip_schedule t s) schedules

  -- A flagged URL: `nextRunAfter` stands outside a `try`, so what it throws ends the tick.
  unfoldable pub block_schedule : Tick → Schedule → Result Tick Tick
  block_schedule t s = elim (services.next_run_after s.cron) [
    | none ↦ err t
    | some next_run_at ↦ ok (skip 1 (advance s next_run_at none blocked t))
  ]

  -- The `try` around the creation of the capture and the advance of its schedule.
  unfoldable pub capture_schedule : Tick → Schedule → Tick
  capture_schedule t s =
      let capture = services.capture_id_for s in
      let t1 = perform (created capture s) t in
      if not (services.creates s) then skip 1 t else (elim (services.next_run_after s.cron) [
        | none ↦ skip 1 t1
        | some next_run_at ↦
            if services.advances s
            then execute s capture (perform (advanced s next_run_at (some capture) pending) t1)
            else skip 1 t1
      ])

  unfoldable pub run_schedule : Tick → Schedule → Result Tick Tick
  run_schedule t s =
      if services.is_safe s.url then ok (capture_schedule t s) else block_schedule t s

  unfoldable pub run_all : Tick → List Schedule → Result Tick Tick
  run_all t [] = ok t
  run_all t (s ∷ schedules) = run_schedule t s >>= λ t'. run_all t' schedules

  abbrev pub notify : Bool → Text → Tick → Tick
  notify true tenant t = perform (notified tenant) t
  notify false tenant t = t

  -- One quota check for a tenant; when it fails, all its schedules are skipped.
  unfoldable pub run_tenant : Tick → Text → List Schedule → Result Tick Tick
  run_tenant t tenant schedules = elim (services.check_quota tenant (length schedules)) [
    | none ↦ ok (skip (length schedules) t)
    | some quota ↦
        if quota.allowed
        then run_all t schedules
        else ok (notify quota.sends_email tenant (skip_all t schedules))
  ]

  unfoldable pub run_tenants : Tick → List (Text × List Schedule) → Result Tick Tick
  run_tenants t [] = ok t
  run_tenants t ((tenant, schedules) ∷ groups) =
      run_tenant t tenant schedules >>= λ t'. run_tenants t' groups

  -- A tick on the due schedules that the query gives, or on a query that fails: what was done and sent, or
  -- what was done before an error.
  unfoldable pub handle_scheduled_tick :
      Option (List Schedule) → Result Tick (Tick × List (List Message))
  handle_scheduled_tick none = err no_tick
  handle_scheduled_tick (some due) = do
    t ← run_tenants no_tick (group_by_tenant due [])
    ok (t, send_chunks services.sends (length t.messages) t.messages)
