-- ===== src/Meter/Rows.antt =====
-- src/meter-reporter.js: the rows of the query.

use web_resource_ledger.Prelude.{
  ◌≡◌, List, [], ◌∷◌, Option, none, some, Bool, true, false, ◌&&◌, ◌||◌, if◌then◌else◌, All,
}
use web_resource_ledger.Prelude.Texts.{Text, text_eq}
use web_resource_ledger.Meter.{
  Counter, Payer, Meter, watermark, pending_rows, join_customer, customer_of, is_unreported,
}
use web_resource_ledger.Meter.Watermarks.{same_key, watermark_at, same_key_refl}

-- The rows of a table have different keys.
abbrev pub DistinctCounters : List Counter → Type 0
DistinctCounters [] = Unit {0}
DistinctCounters (c ∷ cs) =
    All (λ d. same_key c.tenant_id c.period d.tenant_id d.period ≡ false) cs × DistinctCounters cs

abbrev pub DistinctRows : List (Counter × Text) → Type 0
DistinctRows [] = Unit {0}
DistinctRows (r ∷ rows) =
    All (λ s. same_key r.0.tenant_id r.0.period s.0.tenant_id s.0.period ≡ false) rows
    × DistinctRows rows

-- A row's watermarks are those of the table.
abbrev pub IsCurrent : List Counter → Counter → Type 0
IsCurrent table c = (m : Meter) → watermark_at m c.tenant_id c.period table ≡ some (watermark m c)

-- Every row of the query is a row of the table.
pub pending_rows-All :
    (P : Counter → Type 0) (current previous : Text) (payers : List Payer) (cs : List Counter)
    → All P cs
    → All (λ r. P r.0) (pending_rows current previous payers cs)
unfolding pending_rows
pending_rows-All P current previous payers [] h = tt
pending_rows-All P current previous payers (c ∷ cs) h =
    by_test (pending_rows-All P current previous payers cs h.1)
      (is_unreported c && (text_eq c.period current || text_eq c.period previous))
  where
    by_customer :
        All (λ r. P r.0) (pending_rows current previous payers cs)
        → (o : Option Text)
        → All (λ r. P r.0) (join_customer c o (pending_rows current previous payers cs))
    by_customer rest none = rest
    by_customer rest (some customer) = (h.0, rest)

    by_test :
        All (λ r. P r.0) (pending_rows current previous payers cs)
        → (b : Bool)
        → All
            (λ r. P r.0)
            (if b
              then join_customer c
                  (customer_of c.tenant_id payers)
                  (pending_rows current previous payers cs)
              else pending_rows current previous payers cs)
    by_test rest true = by_customer rest (customer_of c.tenant_id payers)
    by_test rest false = rest

pub pending_rows_distinct :
    (current previous : Text) (payers : List Payer) (cs : List Counter)
    → DistinctCounters cs
    → DistinctRows (pending_rows current previous payers cs)
unfolding pending_rows
pending_rows_distinct current previous payers [] h = tt
pending_rows_distinct current previous payers (c ∷ cs) h =
    by_test (pending_rows_distinct current previous payers cs h.1)
      (pending_rows-All (λ d. same_key c.tenant_id c.period d.tenant_id d.period ≡ false) current
        previous payers cs h.0)
      (is_unreported c && (text_eq c.period current || text_eq c.period previous))
  where
    by_customer :
        DistinctRows (pending_rows current previous payers cs)
        → All
            (λ r. same_key c.tenant_id c.period r.0.tenant_id r.0.period ≡ false)
            (pending_rows current previous payers cs)
        → (o : Option Text)
        → DistinctRows (join_customer c o (pending_rows current previous payers cs))
    by_customer rest others none = rest
    by_customer rest others (some customer) = (others, rest)

    by_test :
        DistinctRows (pending_rows current previous payers cs)
        → All
            (λ r. same_key c.tenant_id c.period r.0.tenant_id r.0.period ≡ false)
            (pending_rows current previous payers cs)
        → (b : Bool)
        → DistinctRows (
            if b
            then join_customer c
                (customer_of c.tenant_id payers)
                (pending_rows current previous payers cs)
            else pending_rows current previous payers cs)
    by_test rest others true = by_customer rest others (customer_of c.tenant_id payers)
    by_test rest others false = rest

later-IsCurrent :
    (c : Counter) (cs ds : List Counter)
    → All (λ d. same_key c.tenant_id c.period d.tenant_id d.period ≡ false) ds
    → All (IsCurrent cs) ds
    → All (IsCurrent (c ∷ cs)) ds
unfolding watermark_at
later-IsCurrent c cs [] e a = tt
later-IsCurrent c cs (d ∷ ds) e a =
    ((λ m. rw (e.0, watermark_at) (a.0 m)), later-IsCurrent c cs ds e.1 a.1)

pub All-IsCurrent : (cs : List Counter) → DistinctCounters cs → All (IsCurrent cs) cs
unfolding watermark_at
All-IsCurrent [] d = tt
All-IsCurrent (c ∷ cs) d = (
  (λ m. rw (same_key_refl c.tenant_id c.period, watermark_at)),
  later-IsCurrent c cs cs d.0 (All-IsCurrent cs d.1),
)
