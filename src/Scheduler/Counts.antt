-- ===== src/Scheduler/Counts.antt =====
-- src/scheduler.js: the counts of a tick.
use web_resource_ledger.Prelude.{
  ℕ, suc, ◌+◌, ◌≡◌, refl, ap, sym, ◌∙◌, subst, List, [], ◌∷◌, ◌++◌, none, some, Bool, true, false,
  inl, inr, length, Bool-cases, Option-cases, arith, length-append, append-nil,
}
use web_resource_ledger.Prelude.Results.{Result, ok, err, >>=-eq-ok}
use web_resource_ledger.Prelude.Texts.{Text, text_eq}
use web_resource_ledger.Scheduler.{
  Schedule, Message, Dispatch, pending, skipped, blocked, Effect, created, advanced, notified,
  Services, Tick, no_tick, skip, perform, message_for, execute, add_to_group, group_by_tenant,
  advance, skip_schedule, skip_all, block_schedule, capture_schedule, run_schedule, run_all, notify,
  run_tenant, run_tenants, handle_scheduled_tick,
}

-- The messages that the effects on the database call for: one for each schedule that was advanced
-- with a new, pending capture.
pub dispatched : List Effect → List Message
dispatched [] = []
dispatched (advanced s next (some capture) pending ∷ effects) =
    message_for s capture ∷ dispatched effects
dispatched (advanced s next (some capture) skipped ∷ effects) = dispatched effects
dispatched (advanced s next (some capture) blocked ∷ effects) = dispatched effects
dispatched (advanced s next none status ∷ effects) = dispatched effects
dispatched (created capture s ∷ effects) = dispatched effects
dispatched (notified tenant ∷ effects) = dispatched effects

dispatched-append : (xs ys : List Effect) → dispatched (xs ++ ys) ≡ dispatched xs ++ dispatched ys
unfolding dispatched
dispatched-append [] ys = refl
dispatched-append (advanced s next (some capture) pending ∷ xs) ys =
    ap (λ t. message_for s capture ∷ t) (dispatched-append xs ys)
dispatched-append (advanced s next (some capture) skipped ∷ xs) ys = dispatched-append xs ys
dispatched-append (advanced s next (some capture) blocked ∷ xs) ys = dispatched-append xs ys
dispatched-append (advanced s next none status ∷ xs) ys = dispatched-append xs ys
dispatched-append (created capture s ∷ xs) ys = dispatched-append xs ys
dispatched-append (notified tenant ∷ xs) ys = dispatched-append xs ys

-- After `n` schedules, each is counted once, and there is a message for each one executed.
pub record Counted (n : ℕ) (t : Tick) : Type 0 where
  pub all_counted : t.executed + t.skipped_count ≡ n
  pub one_message_each : length t.messages ≡ t.executed
  pub from_effects : t.messages ≡ dispatched t.effects

pub group_size : List (Text × List Schedule) → ℕ
group_size [] = 0
group_size ((tenant, schedules) ∷ groups) = length schedules + group_size groups

group_size-add_to_group :
    (s : Schedule) (groups : List (Text × List Schedule))
    → group_size (add_to_group s groups) ≡ suc (group_size groups)
unfolding add_to_group group_size
group_size-add_to_group s [] = omega arith
group_size-add_to_group s ((tenant, schedules) ∷ groups) =
    elim (Bool-cases (text_eq tenant s.tenant_id)) [
      | inl same ↦ rw same (omega (arith, length-append {0} schedules (s ∷ [])))
      | inr other ↦ rw other (omega (arith, group_size-add_to_group s groups))
    ]

group_size-group_by_tenant :
    (due : List Schedule) (groups : List (Text × List Schedule))
    → group_size (group_by_tenant due groups) ≡ length due + group_size groups
unfolding group_by_tenant
group_size-group_by_tenant [] groups = omega arith
group_size-group_by_tenant (s ∷ due) groups = omega (
  arith,
  group_size-group_by_tenant due (add_to_group s groups),
  group_size-add_to_group s groups,
)

no_groups : group_size [] ≡ 0
unfolding group_size
no_groups = refl

pub ok-injective : {E A : Type 0} {a b : A} → ◌≡◌ {A = Result E A} (ok a) (ok b) → a ≡ b
ok-injective h = cc

nothing_yet : Counted 0 no_tick
unfolding dispatched
nothing_yet = record { all_counted = refl; one_message_each = refl; from_effects = refl }

module _ (services : Services) where
  skipped_more : (n k : ℕ) (t : Tick) → Counted n t → Counted (n + k) (skip k t)
  skipped_more n k t c = record {
    all_counted = omega (arith, c.all_counted);
    one_message_each = c.one_message_each;
    from_effects = c.from_effects;
  }

  -- An effect that calls for no message.
  performed :
      (n : ℕ) (e : Effect) (t : Tick)
      → dispatched (e ∷ []) ≡ []
      → Counted n t
      → Counted n (perform e t)
  performed n e t quiet c = record {
    all_counted = c.all_counted;
    one_message_each = c.one_message_each;
    from_effects =
        c.from_effects
        ∙ sym (append-nil (dispatched t.effects))
        ∙ ap (λ m. dispatched t.effects ++ m) (sym quiet)
        ∙ sym (dispatched-append t.effects (e ∷ []));
  }

  created-Counted :
      (n : ℕ) (capture : Text) (s : Schedule) (t : Tick)
      → Counted n t
      → Counted n (perform (created capture s) t)
  unfolding dispatched
  created-Counted n capture s t c = performed n (created capture s) t refl c

  notified-Counted :
      (n : ℕ) (tenant : Text) (t : Tick) → Counted n t → Counted n (perform (notified tenant) t)
  unfolding dispatched
  notified-Counted n tenant t c = performed n (notified tenant) t refl c

  advance-Counted :
      (n : ℕ) (s : Schedule) (next : Text) (status : Dispatch) (t : Tick)
      → Counted n t
      → Counted n (advance services s next none status t)
  unfolding dispatched
  advance-Counted n s next status t c = elim (Bool-cases (services.advances s)) [
    | inl done ↦ rw done (performed n (advanced s next none status) t refl c)
    | inr failed ↦ rw failed c
  ]

  executed_more :
      (n : ℕ) (s : Schedule) (capture next : Text) (t : Tick)
      → Counted n t
      → Counted (n + 1) (execute s capture (perform (advanced s next (some capture) pending) t))
  unfolding dispatched
  executed_more n s capture next t c = record {
    all_counted = omega (arith, c.all_counted);
    one_message_each =
        omega
          (arith, length-append {0} t.messages (message_for s capture ∷ []), c.one_message_each);
    from_effects =
        ap (λ m. m ++ (message_for s capture ∷ [])) c.from_effects
        ∙ sym (dispatched-append t.effects (advanced s next (some capture) pending ∷ []));
  }

  skip_schedule-Counted :
      (n : ℕ) (t : Tick) (s : Schedule) → Counted n t → Counted (n + 1) (skip_schedule services t s)
  unfolding skip_schedule
  skip_schedule-Counted n t s c = elim (Option-cases (services.next_run_after s.cron)) [
    | inl e ↦ rw (e, skip_schedule) (skipped_more n 1 t c)
    | inr (next, e) ↦
        rw (e, skip_schedule) (skipped_more n 1 _ (advance-Counted n s next skipped t c))
  ]

  capture_schedule-Counted :
      (n : ℕ) (t : Tick) (s : Schedule)
      → Counted n t
      → Counted (n + 1) (capture_schedule services t s)
  unfolding capture_schedule
  capture_schedule-Counted n t s c =
      let capture = services.capture_id_for s in
      let c1 = created-Counted n capture s t c in
      elim (Bool-cases (services.creates s)) [
        | inr failed ↦ rw failed (skipped_more n 1 t c)
        | inl made ↦ elim (Option-cases (services.next_run_after s.cron)) [
          | inl e ↦ rw (made, e) (skipped_more n 1 _ c1)
          | inr (next, e) ↦ elim (Bool-cases (services.advances s)) [
            | inl moved ↦ rw (made, e, moved) (executed_more n s capture next _ c1)
            | inr stuck ↦ rw (made, e, stuck) (skipped_more n 1 _ c1)
          ]
        ]
      ]

  run_schedule-Counted :
      (n : ℕ) (t : Tick) (s : Schedule) {t' : Tick}
      → Counted n t
      → run_schedule services t s ≡ ok t'
      → Counted (n + 1) t'
  unfolding run_schedule block_schedule
  run_schedule-Counted n t s {t'} c h = elim (Bool-cases (services.is_safe s.url)) [
    | inl safe ↦
        let k : ok (capture_schedule services t s) ≡ ok t' = rw safe at h in
        subst (Counted (n + 1)) (ok-injective k) (capture_schedule-Counted n t s c)
    | inr flagged ↦ elim (Option-cases (services.next_run_after s.cron)) [
      | inl e ↦ let k : err t ≡ ok t' = rw (flagged, e, block_schedule) at h in cc
      | inr (next, e) ↦
          let k : ok (skip 1 (advance services s next none blocked t)) ≡ ok t' =
            rw (flagged, e, block_schedule) at h in
          subst (Counted (n + 1)) (ok-injective k)
            (skipped_more n 1 _ (advance-Counted n s next blocked t c))
    ]
  ]

  skip_all-Counted :
      (n : ℕ) (t : Tick) (schedules : List Schedule)
      → Counted n t
      → Counted (n + length schedules) (skip_all services t schedules)
  unfolding skip_all
  skip_all-Counted n t [] c = let e : n + 0 ≡ n = omega arith in rw e c
  skip_all-Counted n t (s ∷ schedules) c =
      let e : n + suc (length schedules) ≡ n + 1 + length schedules = omega arith in
      rw e (
        skip_all-Counted (n + 1) (skip_schedule services t s) schedules
          (skip_schedule-Counted n t s c))

  run_all-Counted :
      (n : ℕ) (t : Tick) (schedules : List Schedule) {t' : Tick}
      → Counted n t
      → run_all services t schedules ≡ ok t'
      → Counted (n + length schedules) t'
  unfolding run_all
  run_all-Counted n t [] c h =
      let e : n + 0 ≡ n = omega arith in rw e (subst (Counted n) (ok-injective h) c)
  run_all-Counted n t (s ∷ schedules) c h =
      let (t1, first, later) = >>=-eq-ok (run_schedule services t s) _ h in
      let e : n + suc (length schedules) ≡ n + 1 + length schedules = omega arith in
      rw e (run_all-Counted (n + 1) t1 schedules (run_schedule-Counted n t s c first) later)

  notify-Counted :
      (n : ℕ) (b : Bool) (tenant : Text) (t : Tick)
      → Counted n t
      → Counted n (notify services b tenant t)
  notify-Counted n true tenant t c = notified-Counted n tenant t c
  notify-Counted n false tenant t c = c

  run_tenant-Counted :
      (n : ℕ) (t : Tick) (tenant : Text) (schedules : List Schedule) {t' : Tick}
      → Counted n t
      → run_tenant services t tenant schedules ≡ ok t'
      → Counted (n + length schedules) t'
  unfolding run_tenant
  run_tenant-Counted n t tenant schedules {t'} c h =
      elim (Option-cases (services.check_quota tenant (length schedules))) [
        | inl e ↦
            let k : ok (skip (length schedules) t) ≡ ok t' = rw (e, run_tenant) at h in
            subst (Counted (n + length schedules)) (ok-injective k)
              (skipped_more n (length schedules) t c)
        | inr (quota, e) ↦ elim (Bool-cases quota.allowed) [
          | inl allowed ↦
              let k : run_all services t schedules ≡ ok t' = rw (e, allowed, run_tenant) at h in
              run_all-Counted n t schedules c k
          | inr refused ↦
              let k : ok (notify services quota.sends_email tenant (skip_all services t schedules))
                  ≡ ok t' =
                rw (e, refused, run_tenant) at h in
              subst (Counted (n + length schedules)) (ok-injective k)
                (notify-Counted _ quota.sends_email tenant _ (skip_all-Counted n t schedules c))
        ]
      ]

  run_tenants-Counted :
      (n : ℕ) (t : Tick) (groups : List (Text × List Schedule)) {t' : Tick}
      → Counted n t
      → run_tenants services t groups ≡ ok t'
      → Counted (n + group_size groups) t'
  unfolding run_tenants group_size
  run_tenants-Counted n t [] c h =
      let e : n + 0 ≡ n = omega arith in rw e (subst (Counted n) (ok-injective h) c)
  run_tenants-Counted n t ((tenant, schedules) ∷ groups) c h =
      let (t1, first, later) = >>=-eq-ok (run_tenant services t tenant schedules) _ h in
      let e : n + (length schedules + group_size groups)
          ≡ n + length schedules + group_size groups =
        omega arith in
      rw e (
        run_tenants-Counted (n + length schedules) t1 groups
          (run_tenant-Counted n t tenant schedules c first) later)

  -- A tick that ends has counted as many schedules as are due, as executed or as skipped; it has one
  -- message for every schedule counted as executed, and its messages are, in order, those of the
  -- schedules that it advanced with a pending capture.
  pub handle_scheduled_tick-Counted :
      (due : List Schedule) (t : Tick) (sent : List (List Message))
      → handle_scheduled_tick services (some due) ≡ ok (t, sent)
      → Counted (length due) t
  unfolding handle_scheduled_tick
  handle_scheduled_tick-Counted due t sent h =
      let (t1, first, later) =
        >>=-eq-ok (run_tenants services no_tick (group_by_tenant due [])) _ h in
      let c = run_tenants-Counted 0 no_tick (group_by_tenant due []) nothing_yet first in
      let size : 0 + group_size (group_by_tenant due []) ≡ length due =
        omega (arith, group_size-group_by_tenant due [], no_groups) in
      subst (Counted (length due)) (ap (λ r. r.0) (ok-injective later))
        (subst (λ n. Counted n t1) size c)
