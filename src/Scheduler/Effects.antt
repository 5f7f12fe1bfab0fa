-- ===== src/Scheduler/Effects.antt =====
-- src/scheduler.js: the effects and the messages that each schedule and each group of a tick should have.

use web_resource_ledger.Prelude.{
  ◌≡◌, refl, ap, sym, ◌∙◌, subst, List, [], ◌∷◌, ◌++◌, Option, none, some, Bool, true, false, ◌&&◌,
  if◌then◌else◌, inl, inr, length, Bool-cases, Option-cases, append-nil, append_assoc,
}
use web_resource_ledger.Prelude.Results.{ok, err, >>=-eq-ok}
use web_resource_ledger.Prelude.Texts.{Text}
use web_resource_ledger.Scheduler.{
  Schedule, Message, Dispatch, pending, skipped, blocked, Effect, created, advanced, notified,
  Services, Tick, skip, message_for, advance, skip_schedule, skip_all, block_schedule,
  capture_schedule, run_schedule, run_all, notify, run_tenant, run_tenants,
}
use web_resource_ledger.Scheduler.Counts.{ok-injective}
use web_resource_ledger.Scheduler.Groups.{flat_map}

module _ (services : Services) where
  has_next_run : Schedule → Bool
  has_next_run s = elim (services.next_run_after s.cron) [ none ↦ false | some next ↦ true ]

  -- The schedules that get a message when their tenant has quota left: those with a URL that is not
  -- flagged, a capture that could be created, and a next time that they could be moved on to.
  is_run : Schedule → Bool
  is_run s =
      services.is_safe s.url && (services.creates s && (has_next_run s && services.advances s))

  -- The move of a schedule to its next time, if there is one and the update succeeds.
  moves_of : Option Text → Dispatch → Schedule → List Effect
  moves_of capture status s = elim (services.next_run_after s.cron) [
    | none ↦ []
    | some next ↦ if services.advances s then advanced s next capture status ∷ [] else []
  ]

  -- What becomes of a schedule of a tenant with quota left.
  effects_of_allowed : Schedule → List Effect
  effects_of_allowed s =
      if services.is_safe s.url
      then (if services.creates s
          then created (services.capture_id_for s) s
            ∷ moves_of (some (services.capture_id_for s)) pending s
          else [])
      else moves_of none blocked s

  messages_of_allowed : Schedule → List Message
  messages_of_allowed s = if is_run s then message_for s (services.capture_id_for s) ∷ [] else []

  notices_of : Bool → Text → List Effect
  notices_of sends_email tenant = if sends_email then notified tenant ∷ [] else []

  -- What becomes of a group: nothing, when its quota check fails.
  pub effects_of : Text × List Schedule → List Effect
  effects_of (tenant, schedules) = elim (services.check_quota tenant (length schedules)) [
    | none ↦ []
    | some quota ↦
        if quota.allowed
        then flat_map effects_of_allowed schedules
        else flat_map (moves_of none skipped) schedules ++ notices_of quota.sends_email tenant
  ]

  pub messages_of : Text × List Schedule → List Message
  messages_of (tenant, schedules) = elim (services.check_quota tenant (length schedules)) [
    | none ↦ []
    | some quota ↦ if quota.allowed then flat_map messages_of_allowed schedules else []
  ]

  -- A step that adds these effects and these messages.
  abbrev pub Adds : Tick → Tick → List Effect → List Message → Type 0
  Adds t t' effects messages =
      (t'.effects ≡ t.effects ++ effects) × (t'.messages ≡ t.messages ++ messages)

  Adds-nothing : (t : Tick) → Adds t t [] []
  Adds-nothing t = (sym (append-nil t.effects), sym (append-nil t.messages))

  Adds-both :
      (t t1 t2 : Tick) (e e' : List Effect) (m m' : List Message)
      → Adds t t1 e m
      → Adds t1 t2 e' m'
      → Adds t t2 (e ++ e') (m ++ m')
  Adds-both t t1 t2 e e' m m' (a, b) (c, d) = (
    c ∙ ap (λ x. x ++ e') a ∙ append_assoc t.effects e e',
    d ∙ ap (λ x. x ++ m') b ∙ append_assoc t.messages m m',
  )

  advance-Adds :
      (t : Tick) (s : Schedule) (next : Text) (capture : Option Text) (status : Dispatch)
      → services.next_run_after s.cron ≡ some next
      → Adds t (advance services s next capture status t) (moves_of capture status s) []
  unfolding moves_of
  advance-Adds t s next capture status e = elim (Bool-cases (services.advances s)) [
    | inl moved ↦ rw (e, moved, moves_of) (refl, sym (append-nil t.messages))
    | inr stuck ↦ rw (e, stuck, moves_of) (Adds-nothing t)
  ]

  skip_schedule-Adds :
      (t : Tick) (s : Schedule) → Adds t (skip_schedule services t s) (moves_of none skipped s) []
  unfolding skip_schedule moves_of
  skip_schedule-Adds t s = elim (Option-cases (services.next_run_after s.cron)) [
    | inl e ↦ rw (e, skip_schedule, moves_of) (Adds-nothing t)
    | inr (next, e) ↦
        let moved : Adds t (advance services s next none skipped t) (moves_of none skipped s) [] =
          advance-Adds t s next none skipped e in
        rw (e, skip_schedule) moved
  ]

  skip_all-Adds :
      (t : Tick) (schedules : List Schedule)
      → Adds t (skip_all services t schedules) (flat_map (moves_of none skipped) schedules) []
  unfolding skip_all
  skip_all-Adds t [] = Adds-nothing t
  skip_all-Adds t (s ∷ schedules) =
      let t1 = skip_schedule services t s in
      Adds-both t t1 (skip_all services t1 schedules) (moves_of none skipped s)
        (flat_map (moves_of none skipped) schedules) [] [] (skip_schedule-Adds t s)
        (skip_all-Adds t1 schedules)

  capture_schedule-Adds :
      (t : Tick) (s : Schedule)
      → services.is_safe s.url ≡ true
      → Adds t (capture_schedule services t s) (effects_of_allowed s) (messages_of_allowed s)
  unfolding capture_schedule effects_of_allowed messages_of_allowed is_run has_next_run moves_of
  capture_schedule-Adds t s safe =
      let capture = services.capture_id_for s in
      elim (Bool-cases (services.creates s)) [
        | inr failed ↦
            rw (safe, failed, effects_of_allowed, messages_of_allowed, is_run, capture_schedule)
              (Adds-nothing t)
        | inl made ↦ elim (Option-cases (services.next_run_after s.cron)) [
          | inl e ↦
              rw
                (
                  safe, made, e, effects_of_allowed, messages_of_allowed, is_run, has_next_run,
                  moves_of, capture_schedule,
                )
                (refl, sym (append-nil t.messages))
          | inr (next, e) ↦ elim (Bool-cases (services.advances s)) [
            | inl moved ↦
                rw
                  (
                    safe, made, e, moved, effects_of_allowed, messages_of_allowed, is_run,
                    has_next_run, moves_of, capture_schedule,
                  )
                  (
                    append_assoc t.effects (created capture s ∷ [])
                        (advanced s next (some capture) pending ∷ []),
                    refl,
                  )
            | inr stuck ↦
                rw
                  (
                    safe, made, e, stuck, effects_of_allowed, messages_of_allowed, is_run,
                    has_next_run, moves_of, capture_schedule,
                  )
                  (refl, sym (append-nil t.messages))
          ]
        ]
      ]

  run_schedule-Adds :
      (t : Tick) (s : Schedule) {t' : Tick}
      → run_schedule services t s ≡ ok t'
      → Adds t t' (effects_of_allowed s) (messages_of_allowed s)
  unfolding run_schedule block_schedule effects_of_allowed messages_of_allowed is_run
  run_schedule-Adds t s {t'} h = elim (Bool-cases (services.is_safe s.url)) [
    | inl safe ↦
        let k : ok (capture_schedule services t s) ≡ ok t' = rw safe at h in
        subst (λ x. Adds t x (effects_of_allowed s) (messages_of_allowed s)) (ok-injective k)
          (capture_schedule-Adds t s safe)
    | inr flagged ↦ elim (Option-cases (services.next_run_after s.cron)) [
      | inl e ↦ let k : err t ≡ ok t' = rw (flagged, e, block_schedule) at h in cc
      | inr (next, e) ↦
          let k : ok (skip 1 (advance services s next none blocked t)) ≡ ok t' =
            rw (flagged, e, block_schedule) at h in
          let moved : Adds t (advance services s next none blocked t) (moves_of none blocked s) [] =
            advance-Adds t s next none blocked e in
          rw (flagged, effects_of_allowed, messages_of_allowed, is_run)
            (subst (λ x. Adds t x (moves_of none blocked s) []) (ok-injective k) moved)
    ]
  ]

  run_all-Adds :
      (t : Tick) (schedules : List Schedule) {t' : Tick}
      → run_all services t schedules ≡ ok t'
      → Adds t t' (flat_map effects_of_allowed schedules) (flat_map messages_of_allowed schedules)
  unfolding run_all
  run_all-Adds t [] h = subst (λ x. Adds t x [] []) (ok-injective h) (Adds-nothing t)
  run_all-Adds t (s ∷ schedules) {t'} h =
      let (t1, first, later) = >>=-eq-ok (run_schedule services t s) _ h in
      Adds-both t t1 t' (effects_of_allowed s) (flat_map effects_of_allowed schedules)
        (messages_of_allowed s) (flat_map messages_of_allowed schedules)
        (run_schedule-Adds t s first) (run_all-Adds t1 schedules later)

  notify-Adds :
      (t : Tick) (sends_email : Bool) (tenant : Text)
      → Adds t (notify services sends_email tenant t) (notices_of sends_email tenant) []
  unfolding notices_of
  notify-Adds t true tenant = (refl, sym (append-nil t.messages))
  notify-Adds t false tenant = Adds-nothing t

  run_tenant-Adds :
      (t : Tick) (tenant : Text) (schedules : List Schedule) {t' : Tick}
      → run_tenant services t tenant schedules ≡ ok t'
      → Adds t t' (effects_of (tenant, schedules)) (messages_of (tenant, schedules))
  unfolding run_tenant effects_of messages_of
  run_tenant-Adds t tenant schedules {t'} h =
      elim (Option-cases (services.check_quota tenant (length schedules))) [
        | inl e ↦
            let k : ok (skip (length schedules) t) ≡ ok t' = rw (e, run_tenant) at h in
            rw (e, effects_of, messages_of)
              (subst (λ x. Adds t x [] []) (ok-injective k) (Adds-nothing t))
        | inr (quota, e) ↦ elim (Bool-cases quota.allowed) [
          | inl allowed ↦
              let k : run_all services t schedules ≡ ok t' = rw (e, allowed, run_tenant) at h in
              rw (e, allowed, effects_of, messages_of) (run_all-Adds t schedules k)
          | inr refused ↦
              let skipped_all = skip_all services t schedules in
              let told = notify services quota.sends_email tenant skipped_all in
              let k : ok told ≡ ok t' = rw (e, refused, run_tenant) at h in
              let moves = flat_map (moves_of none skipped) schedules in
              let notices = notices_of quota.sends_email tenant in
              rw (e, refused, effects_of, messages_of)
                (subst (λ x. Adds t x (moves ++ notices) []) (ok-injective k)
                  (Adds-both t skipped_all told moves notices [] [] (skip_all-Adds t schedules)
                    (notify-Adds skipped_all quota.sends_email tenant)))
        ]
      ]

  pub run_tenants-Adds :
      (t : Tick) (groups : List (Text × List Schedule)) {t' : Tick}
      → run_tenants services t groups ≡ ok t'
      → Adds t t' (flat_map effects_of groups) (flat_map messages_of groups)
  unfolding run_tenants
  run_tenants-Adds t [] h = subst (λ x. Adds t x [] []) (ok-injective h) (Adds-nothing t)
  run_tenants-Adds t ((tenant, schedules) ∷ groups) {t'} h =
      let (t1, first, later) = >>=-eq-ok (run_tenant services t tenant schedules) _ h in
      Adds-both t t1 t' (effects_of (tenant, schedules)) (flat_map effects_of groups)
        (messages_of (tenant, schedules)) (flat_map messages_of groups)
        (run_tenant-Adds t tenant schedules first) (run_tenants-Adds t1 groups later)
