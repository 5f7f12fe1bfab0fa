-- ===== src/Scheduler/Account.antt =====
-- src/scheduler.js: what a tick does for each of the due schedules.
use mathlib.Core.List.{Perm}
use web_resource_ledger.Prelude.{◌≡◌, ap, subst, List, [], some, length, All, append-nil}
use web_resource_ledger.Prelude.Results.{ok, >>=-eq-ok}
use web_resource_ledger.Prelude.Texts.{Text}
use web_resource_ledger.Scheduler.{
  Schedule, Message, Services, Tick, no_tick, group_by_tenant, run_tenants, handle_scheduled_tick,
}
use web_resource_ledger.Scheduler.Counts.{Counted, ok-injective, handle_scheduled_tick-Counted}
use web_resource_ledger.Scheduler.Effects.{effects_of, messages_of, Adds, run_tenants-Adds}
use web_resource_ledger.Scheduler.Groups.{
  flat_map, schedules_of, IsOwn, AreDistinct, group_by_tenant-perm, group_by_tenant-IsOwn,
  group_by_tenant-AreDistinct,
}

module _ (services : Services) where
  -- What a tick did, group by group.
  pub record IsAccount (due : List Schedule) (t : Tick) : Type 0 where
    pub groups : List (Text × List Schedule)
    pub each_once : Perm (schedules_of groups) due
    pub own : All IsOwn groups
    pub distinct : AreDistinct groups
    pub done : t.effects ≡ flat_map (effects_of services) groups
    pub queued : t.messages ≡ flat_map (messages_of services) groups
    pub counted : Counted (length due) t

  -- When the query gives the due schedules and the tick ends, it took every due schedule exactly once, in
  -- groups of one tenant each, and what it did for a group depends on the quota check for the group's tenant and
  -- size. With quota left, each schedule of the group with a URL that is not flagged got a capture record,
  -- unless its creation failed, and was then moved on to its next time with that capture as pending, unless
  -- its cron expression has no next time or the update failed; exactly the schedules that got both have a queue
  -- message, with that capture. A schedule with a flagged URL was moved on as blocked, unless the update failed.
  -- Without quota, each schedule was moved on as skipped, unless its cron expression has no next time or the
  -- update failed, and the tenant was notified if there is an e-mail to send. When the quota check failed, nothing was
  -- done. Nothing else was done, and it was done in this order; and the schedules counted as executed and as
  -- skipped are together as many as are due, those executed as many as there are messages.
  pub handle_scheduled_tick-IsAccount :
      (due : List Schedule) (t : Tick) (sent : List (List Message))
      → handle_scheduled_tick services (some due) ≡ ok (t, sent)
      → IsAccount due t
  unfolding handle_scheduled_tick
  handle_scheduled_tick-IsAccount due t sent h =
      let groups = group_by_tenant due [] in
      let (t1, first, later) = >>=-eq-ok (run_tenants services no_tick groups) _ h in
      let (effects, messages) =
        subst
          (λ x.
            Adds services no_tick x (flat_map (effects_of services) groups)
              (flat_map (messages_of services) groups))
          (ap (λ r. r.0) (ok-injective later)) (run_tenants-Adds services no_tick groups first) in
      record {
        groups = groups;
        each_once =
            subst (Perm (schedules_of groups)) (append-nil due) (group_by_tenant-perm due []);
        own = group_by_tenant-IsOwn due [] tt;
        distinct = group_by_tenant-AreDistinct due [] tt;
        done = effects;
        queued = messages;
        counted = handle_scheduled_tick-Counted services due t sent h;
      }
