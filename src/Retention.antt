-- ===== src/Retention.antt =====
-- src/retention.js: `purgeQuarantinedCaptures`, `trimUsageCounters`, `usageCutoffPeriod`, `runRetentionJobs`.
-- The JSON parser is a parameter, and so is which calls of a run throw. Times are ISO texts, which are
-- compared as texts; log lines are left out.
pub mod Kept
mod Tests
use web_resource_ledger.Prelude.{
  ℕ, ◌+◌, ◌-◌, List, [], ◌∷◌, ◌++◌, map, Option, none, some, Bool, true, false, not, ◌&&◌, ◌||◌,
  if◌then◌else◌, any, take, filter, length,
}
use web_resource_ledger.Prelude.Texts.{Text, codes, text_eq}
use web_resource_ledger.Prelude.Sorting.{text_lt}
use web_resource_ledger.Prelude.Decimals.{print_decimal}
use web_resource_ledger.Meter.{Counter}
use web_resource_ledger.Cdxj.{pad}
use web_resource_ledger.Json.{
  Json, null, boolean, number, string, array, object, Elements, no_elements, element, Members,
  no_members, member,
}
use web_resource_ledger.Verify.Values.{prop}

abbrev pub quarantine_purge_batch : ℕ
quarantine_purge_batch = 100

-- Twelve periods before a month from 1 to 12.
unfoldable pub usage_cutoff_period : (year month : ℕ) → Text
usage_cutoff_period year month = print_decimal (year - 1) ++ codes "-" ++ pad month

-- The columns that the job reads of a row of captures.
pub record CaptureRow : Type 0 where
  pub row_id : Text
  pub artifacts : Option Text
  pub wacz : Option Text
  pub is_quarantined : Bool
  pub quarantined_at : Option Text

-- A text that is in a list of texts.
unfoldable pub has_text : Text → List Text → Bool
has_text t [] = false
has_text t (u ∷ us) = text_eq u t || has_text t us

unfoldable pub remove_texts : List Text → List Text → List Text
remove_texts keys us = filter (λ u. not (has_text u keys)) us

-- `filter((k) => typeof k === 'string' && k)`
abbrev pub key_text : Json → List Text
key_text (string []) = []
key_text (string (c ∷ t)) = (c ∷ t) ∷ []
key_text null = []
key_text (boolean b) = []
key_text (number t) = []
key_text (array es) = []
key_text (object ms) = []

unfoldable pub element_keys : Elements → List Text
element_keys no_elements = []
element_keys (element j es) = key_text j ++ element_keys es

unfoldable pub member_keys : Members → List Text
member_keys no_members = []
member_keys (member name j ms) = key_text j ++ member_keys ms

-- The keys among `Object.values`; the values of a text are its characters.
abbrev pub value_keys : Option Json → List Text
value_keys none = []
value_keys (some null) = []
value_keys (some (boolean b)) = []
value_keys (some (number t)) = []
value_keys (some (string t)) = map (λ c. c ∷ []) t
value_keys (some (array es)) = element_keys es
value_keys (some (object ms)) = member_keys ms

abbrev pub first_key : Option Json → Option Text
first_key (some (string (c ∷ t))) = some (c ∷ t)
first_key (some (string [])) = none
first_key (some null) = none
first_key (some (boolean b)) = none
first_key (some (number t)) = none
first_key (some (array es)) = none
first_key (some (object ms)) = none
first_key none = none

-- Where the steps of one row throw. A deletion that throws may have deleted some of the keys.
pub data Fault : Type 0 where
  no_fault lookup_throws batch_throws : Fault
  delete_throws : (Text → Bool) → Fault

pub record Purge : Type 0 where
  pub captures : List CaptureRow
  pub threat_checks : List Text
  pub bucket : List Text
  pub purged : ℕ
  pub failed : ℕ

-- `quarantined = 1 AND quarantined_at IS NOT NULL AND quarantined_at < ?`
abbrev pub is_expired_row : Text → CaptureRow → Bool
is_expired_row before row =
    row.is_quarantined
    && (elim row.quarantined_at [ none ↦ false | some time ↦ text_lt time before ])

abbrev pub time_of : CaptureRow → Text
time_of row = elim row.quarantined_at [ none ↦ [] | some time ↦ time ]

unfoldable pub insert_row : CaptureRow → List CaptureRow → List CaptureRow
insert_row row [] = row ∷ []
insert_row row (other ∷ rows) =
    if text_lt (time_of other) (time_of row)
    then other ∷ insert_row row rows
    else row ∷ other ∷ rows

-- The rows of the query in its order, before the limit.
unfoldable pub expired_rows : Text → List CaptureRow → List CaptureRow
expired_rows before [] = []
expired_rows before (row ∷ rows) =
    let rest = expired_rows before rows in
    if is_expired_row before row then insert_row row rest else rest

unfoldable pub delete_row : Text → List CaptureRow → List CaptureRow
delete_row id rows = filter (λ row. not (text_eq row.row_id id && row.is_quarantined)) rows

-- The counters that are left, with the number of those deleted.
unfoldable pub trim_usage_counters : (cutoff : Text) → List Counter → List Counter × ℕ
trim_usage_counters cutoff counters = (
  filter (λ c. not (text_lt c.period cutoff)) counters,
  length (filter (λ c. text_lt c.period cutoff) counters),
)

module _ (parse_json : Text → Option Json) where
  -- `parseJson`
  abbrev pub parsed : Option Text → Option Json
  parsed none = none
  parsed (some []) = none
  parsed (some (c ∷ t)) = parse_json (c ∷ t)

  unfoldable pub artifact_keys : CaptureRow → List Text
  artifact_keys row = value_keys (parsed row.artifacts)

  unfoldable pub wacz_key : CaptureRow → Option Text
  wacz_key row = first_key (prop (codes "key") (parsed row.wacz))

  -- `id != ? AND json_extract(wacz, '$.key') = ?`
  abbrev pub shares : Text → Text → CaptureRow → Bool
  shares id key row =
      not (text_eq row.row_id id)
      && (elim (wacz_key row) [ none ↦ false | some other ↦ text_eq other key ])

  -- The keys to delete for a row.
  unfoldable pub purge_keys : List CaptureRow → CaptureRow → List Text
  purge_keys captures row = elim (wacz_key row) [
    | none ↦ artifact_keys row
    | some key ↦
        if any (shares row.row_id key) captures
        then artifact_keys row
        else artifact_keys row ++ (key ∷ [])
  ]

  -- `deleted` are the keys that are gone.
  abbrev pub failed_row : List Text → Purge → Purge
  failed_row deleted run = record run {
    bucket = remove_texts deleted run.bucket;
    failed = run.failed + 1;
  }

  abbrev pub purged_row : List Text → Text → Purge → Purge
  purged_row deleted id run = record run {
    bucket = remove_texts deleted run.bucket;
    threat_checks = filter (λ t. not (text_eq t id)) run.threat_checks;
    captures = delete_row id run.captures;
    purged = run.purged + 1;
  }

  -- Nothing is looked up for a row without a WACZ, and nothing is deleted without a key.
  abbrev pub with_fault : Fault → CaptureRow → Purge → Purge
  with_fault no_fault row run = purged_row (purge_keys run.captures row) row.row_id run
  with_fault batch_throws row run = failed_row (purge_keys run.captures row) run
  with_fault lookup_throws row run = elim (wacz_key row) [
    | none ↦ purged_row (purge_keys run.captures row) row.row_id run
    | some key ↦ failed_row [] run
  ]
  with_fault (delete_throws test) row run = elim (purge_keys run.captures row) [
    | [] ↦ purged_row [] row.row_id run
    | k ∷ ks ↦ failed_row (filter test (k ∷ ks)) run
  ]

  module _ (fault : CaptureRow → Fault) where
    unfoldable pub purge_rows : List CaptureRow → Purge → Purge
    purge_rows [] run = run
    purge_rows (row ∷ rows) run = purge_rows rows (with_fault (fault row) row run)

    unfoldable pub purge_quarantined_captures : (before : Text) (limit : ℕ) → Purge → Purge
    purge_quarantined_captures before limit run =
        purge_rows (take limit (expired_rows before run.captures)) run
