-- ===== src/Scheduler/Tests.antt =====
-- A tick with three schedules of two tenants, and one that a flagged URL ends.
use web_resource_ledger.Prelude.{
  ◌≡◌, refl, List, [], ◌∷◌, Option, none, some, true, false, Bool, not, inl,
}
use web_resource_ledger.Prelude.Results.{ok, err}
use web_resource_ledger.Prelude.Texts.{Text, codes, text_eq}
use web_resource_ledger.Scheduler.{
  Schedule, Message, Services, Tick, created, advanced, notified, pending, skipped, message_for,
  group_by_tenant, add_to_group, send_chunks, skip_schedule, skip_all, block_schedule,
  capture_schedule, run_schedule, run_all, run_tenant, run_tenants, handle_scheduled_tick,
}
use web_resource_ledger.Scheduler.Account.{IsAccount, handle_scheduled_tick-IsAccount}
use web_resource_ledger.Scheduler.Batches.{IsSending}
use web_resource_ledger.Scheduler.Ends.{handle_scheduled_tick_ends}

abbrev daily : Text → Text → Text → Schedule
daily id tenant url = record { id = id; tenant_id = tenant; url = url; cron = codes "0 0 * * *" }

abbrev news : Schedule
news = daily (codes "s1") (codes "a") (codes "https://news.example")

abbrev bad : Schedule
bad = record {
  id = codes "s2";
  tenant_id = codes "a";
  url = codes "https://bad.example";
  cron = codes "?";
}

abbrev blog : Schedule
blog = daily (codes "s3") (codes "b") (codes "https://blog.example")

abbrev cron_table : Bool → Option Text
cron_table true = none
cron_table false = some (codes "tomorrow")

-- Tenant "b" has no quota left; "?" has no next time; bad.example is flagged.
abbrev services : Services
services = record {
  check_quota =
      λ tenant count. some (record { allowed = text_eq tenant (codes "a"); sends_email = true });
  is_safe = λ url. not (text_eq url (codes "https://bad.example"));
  capture_id_for = λ s. codes "cap";
  creates = λ s. true;
  next_run_after = λ cron. cron_table (text_eq cron (codes "?"));
  advances = λ s. true;
  sends = λ chunk. true;
}

abbrev ended : Tick
ended = record {
  messages = message_for news (codes "cap") ∷ [];
  executed = 1;
  skipped_count = 1;
  effects =
      created (codes "cap") news
      ∷ advanced news (codes "tomorrow") (some (codes "cap")) pending
      ∷ advanced blog (codes "tomorrow") none skipped
      ∷ notified (codes "b")
      ∷ [];
}

tick_runs :
    handle_scheduled_tick services (some (news ∷ blog ∷ []))
    ≡ ok (ended, (message_for news (codes "cap") ∷ []) ∷ [])
unfolding handle_scheduled_tick run_tenants run_tenant run_all run_schedule capture_schedule
    block_schedule skip_all skip_schedule group_by_tenant add_to_group send_chunks text_eq
tick_runs = refl

-- The flagged URL with a bad cron expression ends the tick after the first capture was created and its
-- schedule moved on, and nothing is sent.
tick_aborts :
    handle_scheduled_tick services (some (news ∷ bad ∷ []))
    ≡ err (record {
      messages = message_for news (codes "cap") ∷ [];
      executed = 1;
      skipped_count = 0;
      effects =
          created (codes "cap") news
          ∷ advanced news (codes "tomorrow") (some (codes "cap")) pending
          ∷ [];
    })
unfolding handle_scheduled_tick run_tenants run_tenant run_all run_schedule capture_schedule
    block_schedule skip_all skip_schedule group_by_tenant add_to_group send_chunks text_eq
tick_aborts = refl

handle_scheduled_tick-IsAccount_example : IsAccount services (news ∷ blog ∷ []) ended
handle_scheduled_tick-IsAccount_example =
    handle_scheduled_tick-IsAccount services (news ∷ blog ∷ []) ended
      ((message_for news (codes "cap") ∷ []) ∷ []) tick_runs

handle_scheduled_tick_ends_example :
    (t : Tick) × (sent : List (List Message)) × (handle_scheduled_tick services
        (some (news ∷ blog ∷ []))
      ≡ ok (t, sent))
    × IsSending services.sends t.messages sent
unfolding text_eq
handle_scheduled_tick_ends_example =
    handle_scheduled_tick_ends services (news ∷ blog ∷ []) (inl refl, (inl refl, tt))
