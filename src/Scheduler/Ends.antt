-- ===== src/Scheduler/Ends.antt =====
-- src/scheduler.js: when a tick ends.
use web_resource_ledger.Prelude.{
  ◌≡◌, refl, sym, ◌∙◌, List, [], ◌∷◌, none, some, Bool, true, false, ◌⊎◌, inl, inr, length, All,
  Bool-cases, Option-cases, All-append, arith,
}
use web_resource_ledger.Prelude.Results.{ok}
use web_resource_ledger.Prelude.Texts.{Text, text_eq}
use web_resource_ledger.Scheduler.Batches.{IsSending, send_chunks-IsSending}
use web_resource_ledger.Scheduler.{
  Schedule, Message, blocked, Services, Tick, no_tick, skip, add_to_group, group_by_tenant,
  send_chunks, advance, block_schedule, capture_schedule, run_schedule, run_all, notify, skip_all,
  run_tenant, run_tenants, handle_scheduled_tick,
}

-- The cron expression has a next time.
abbrev pub HasNextRun : Services → Schedule → Type 0
HasNextRun services s = (next : Text) × (services.next_run_after s.cron ≡ some next)

-- A schedule that does not end a tick: its URL is not flagged, or its cron expression has a next time.
abbrev pub IsHarmless : Services → Schedule → Type 0
IsHarmless services s = (services.is_safe s.url ≡ true) ⊎ HasNextRun services s

AllHarmless : Services → List (Text × List Schedule) → Type 0
AllHarmless services [] = Unit
AllHarmless services ((tenant, schedules) ∷ groups) =
    All (IsHarmless services) schedules × AllHarmless services groups

clash : (b : Bool) → b ≡ true → b ≡ false → true ≡ false
clash b h k = sym h ∙ k

no_groups_harmless : (services : Services) → AllHarmless services []
unfolding AllHarmless
no_groups_harmless services = tt

module _ (services : Services) where
  add_to_group-AllHarmless :
      (s : Schedule) (groups : List (Text × List Schedule))
      → IsHarmless services s
      → AllHarmless services groups
      → AllHarmless services (add_to_group s groups)
  unfolding AllHarmless add_to_group
  add_to_group-AllHarmless s [] h hs = ((h, tt), tt)
  add_to_group-AllHarmless s ((tenant, schedules) ∷ groups) h (this, others) =
      elim (Bool-cases (text_eq tenant s.tenant_id)) [
        | inl same ↦
            rw same (All-append (IsHarmless services) schedules (s ∷ []) this (h, tt), others)
        | inr other ↦ rw other (this, add_to_group-AllHarmless s groups h others)
      ]

  group_by_tenant-AllHarmless :
      (due : List Schedule) (groups : List (Text × List Schedule))
      → All (IsHarmless services) due
      → AllHarmless services groups
      → AllHarmless services (group_by_tenant due groups)
  unfolding group_by_tenant
  group_by_tenant-AllHarmless [] groups h hs = hs
  group_by_tenant-AllHarmless (s ∷ due) groups (h, rest) hs =
      group_by_tenant-AllHarmless due (add_to_group s groups) rest
        (add_to_group-AllHarmless s groups h hs)

  run_schedule_ends :
      (t : Tick) (s : Schedule)
      → IsHarmless services s
      → (t' : Tick) × (run_schedule services t s ≡ ok t')
  unfolding run_schedule block_schedule
  run_schedule_ends t s h = elim (Bool-cases (services.is_safe s.url)) [
    | inl safe ↦ (capture_schedule services t s, rw safe)
    | inr flagged ↦ elim h [
      | inl safe ↦ let impossible = clash _ safe flagged in absurd (ground arith)
      | inr (next, e) ↦
          (skip 1 (advance services s next none blocked t), rw (flagged, e, block_schedule))
    ]
  ]

  run_all_ends :
      (t : Tick) (schedules : List Schedule)
      → All (IsHarmless services) schedules
      → (t' : Tick) × (run_all services t schedules ≡ ok t')
  unfolding run_all
  run_all_ends t [] h = (t, refl)
  run_all_ends t (s ∷ schedules) (h, hs) =
      let (t1, e) = run_schedule_ends t s h in
      let (t2, f) = run_all_ends t1 schedules hs in (t2, rw e f)

  run_tenant_ends :
      (t : Tick) (tenant : Text) (schedules : List Schedule)
      → All (IsHarmless services) schedules
      → (t' : Tick) × (run_tenant services t tenant schedules ≡ ok t')
  unfolding run_tenant
  run_tenant_ends t tenant schedules h =
      elim (Option-cases (services.check_quota tenant (length schedules))) [
        | inl e ↦ (skip (length schedules) t, rw (e, run_tenant))
        | inr (quota, e) ↦ elim (Bool-cases quota.allowed) [
          | inl allowed ↦
              let (t1, f) = run_all_ends t schedules h in (t1, rw (e, allowed, run_tenant) f)
          | inr refused ↦ (
            notify services quota.sends_email tenant (skip_all services t schedules),
            rw (e, refused, run_tenant),
          )
        ]
      ]

  run_tenants_end :
      (t : Tick) (groups : List (Text × List Schedule))
      → AllHarmless services groups
      → (t' : Tick) × (run_tenants services t groups ≡ ok t')
  unfolding run_tenants AllHarmless
  run_tenants_end t [] h = (t, refl)
  run_tenants_end t ((tenant, schedules) ∷ groups) (h, hs) =
      let (t1, e) = run_tenant_ends t tenant schedules h in
      let (t2, f) = run_tenants_end t1 groups hs in (t2, rw e f)

  -- When the query of the due schedules succeeds, and every due schedule with a flagged URL has a cron
  -- expression with a next time, the tick ends, whatever fails of the quota checks, of the captures' creation,
  -- of the schedules' advance and of the cron expressions of other schedules; and the batches that it sends are
  -- the messages it collected, in order and without repetition, in batches of at most 100, up to the first
  -- batch that fails.
  pub handle_scheduled_tick_ends :
      (due : List Schedule)
      → All (IsHarmless services) due
      → (t : Tick) × (sent : List (List Message)) × (handle_scheduled_tick services (some due)
          ≡ ok (t, sent))
        × IsSending services.sends t.messages sent
  unfolding handle_scheduled_tick
  handle_scheduled_tick_ends due h =
      let (t, e) =
        run_tenants_end no_tick (group_by_tenant due [])
          (group_by_tenant-AllHarmless due [] h (no_groups_harmless services)) in
      (
        t,
        send_chunks services.sends (length t.messages) t.messages,
        rw e,
        send_chunks-IsSending services.sends (length t.messages) t.messages (omega arith),
      )
