-- ===== src/Captures/Quarantine.antt =====
-- src/db.js: quarantine, and what an update of one capture does to the others.
use web_resource_ledger.Prelude.{
  ◌+◌, ◌≡◌, refl, ap, ◌∙◌, List, [], ◌∷◌, ◌++◌, Option, some, Bool, true, false, ◌&&◌, inl, inr,
  if◌then◌else◌, length, Bool-cases, arith, length-append,
}
use web_resource_ledger.Prelude.Texts.{Text, text_eq, text_eq_iff}
use web_resource_ledger.Captures.{
  Capture, Store, ThreatCheck, find_capture, update_where, may_quarantine, put_in_quarantine,
  quarantine_capture,
}

-- A change after which the test fails is made once.
module _ (id : Text) (test : Capture → Bool) (change : Capture → Capture)
    (keeps_id : (c : Capture) → (change c).capture_id ≡ c.capture_id)
    (once : (c : Capture) → test c ≡ true → test (change c) ≡ false) where
  abbrev new_row : Capture → Capture
  new_row c = if text_eq c.capture_id id && test c then change c else c

  new_row_again : (c : Capture) → new_row (new_row c) ≡ new_row c
  new_row_again c = elim (Bool-cases (text_eq c.capture_id id)) [
    | inr other ↦ rw (other, other)
    | inl same ↦ elim (Bool-cases (test c)) [
      | inr unmet ↦ rw (same, unmet, same, unmet)
      | inl met ↦
          let still : text_eq (change c).capture_id id ≡ true =
            ap (λ t. text_eq t id) (keeps_id c) ∙ same in
          rw (same, met) (rw (still, once c met))
    ]
  ]

  pub update_where_again :
      (captures : List Capture)
      → update_where id test change (update_where id test change captures)
        ≡ update_where id test change captures
  unfolding update_where
  update_where_again [] = refl
  update_where_again (c ∷ captures) =
      ap (λ r. r ∷ update_where id test change (update_where id test change captures))
        (new_row_again c)
      ∙ ap (λ rest. new_row c ∷ rest) (update_where_again captures)

-- An update of one capture leaves every other one as it is.
pub find-update_other :
    (id other : Text) (test : Capture → Bool) (change : Capture → Capture) (captures : List Capture)
    → ((c : Capture) → (change c).capture_id ≡ c.capture_id)
    → text_eq id other ≡ false
    → find_capture other (update_where id test change captures) ≡ find_capture other captures
unfolding find_capture update_where
find-update_other id other test change [] keeps h = refl
find-update_other id other test change (c ∷ captures) keeps h =
    let later = find-update_other id other test change captures keeps h in
    elim (Bool-cases (text_eq c.capture_id id)) [
      | inl same ↦
          let not_other : text_eq c.capture_id other ≡ false =
            ap (λ t. text_eq t other) ((text_eq_iff c.capture_id id).0 same) ∙ h in
          let still : text_eq (change c).capture_id other ≡ false =
            ap (λ t. text_eq t other) (keeps c) ∙ not_other in
          elim (Bool-cases (test c)) [
            | inl met ↦ rw (same, met) (rw (still, not_other) later)
            | inr unmet ↦ rw (same, unmet) (rw not_other later)
          ]
      | inr elsewhere ↦
          rw elsewhere (ap (λ r. if text_eq c.capture_id other then some c else r) later)
    ]

quarantine_once :
    (reason : Text) (c : Capture)
    → may_quarantine c ≡ true
    → may_quarantine (put_in_quarantine reason c) ≡ false
quarantine_once reason c h = ground arith

-- A second quarantine of a capture changes no capture, but adds a row to the audit table, as the first
-- one does.
pub quarantine_capture-twice :
    (id reason : Text) (types : Option Text) (s : Store)
    → ((quarantine_capture id reason types (quarantine_capture id reason types s)).captures
        ≡ (quarantine_capture id reason types s).captures)
      × (length
            (quarantine_capture id reason types
              (quarantine_capture id reason types s)).threat_checks
          ≡ length s.threat_checks + 2)
unfolding quarantine_capture
quarantine_capture-twice id reason types s =
    let row : ThreatCheck = record { checked_capture = id; threat_types = types } in
    (
      update_where_again id may_quarantine (put_in_quarantine reason) (λ c. refl)
          (quarantine_once reason) s.captures,
      omega (
        arith,
        length-append {0} (s.threat_checks ++ (row ∷ [])) (row ∷ []),
        length-append {0} s.threat_checks (row ∷ []),
      ),
    )

-- A quarantine leaves every other capture as it is.
pub quarantine_capture-other :
    (id other reason : Text) (types : Option Text) (s : Store)
    → text_eq id other ≡ false
    → find_capture other (quarantine_capture id reason types s).captures
      ≡ find_capture other s.captures
unfolding quarantine_capture
quarantine_capture-other id other reason types s h =
    find-update_other id other may_quarantine (put_in_quarantine reason) s.captures (λ c. refl) h
