-- ===== src/Retention/Kept.antt =====
-- src/retention.js: what a purge keeps.
use web_resource_ledger.Prelude.{
  ℕ, zero, suc, ◌≡◌, refl, ap, sym, ◌∙◌, List, [], ◌∷◌, ◌++◌, Option, none, some, Bool, true, false,
  not, ◌&&◌, if◌then◌else◌, any, take, filter, keep_if, subst, All, ◌⊎◌, inl, inr, Bool-cases,
  arith,
}
use web_resource_ledger.Prelude.Texts.{Text, text_eq, text_eq_iff}
use web_resource_ledger.Prelude.Sorting.{text_lt}
use web_resource_ledger.Json.{Json}
use web_resource_ledger.Retention.{
  CaptureRow, Purge, Fault, no_fault, lookup_throws, batch_throws, delete_throws, has_text,
  remove_texts, is_expired_row, time_of, insert_row, expired_rows, delete_row, artifact_keys,
  wacz_key, shares, purge_keys, failed_row, purged_row, with_fault, purge_rows,
  purge_quarantined_captures,
}

-- A row of a list.
abbrev pub Among : CaptureRow → List CaptureRow → Type 0
Among d [] = ⊥
Among d (c ∷ cs) = (c ≡ d) ⊎ Among d cs

kept_text :
    (k u : Text) (b : Bool) (us : List Text)
    → has_text k us ≡ true
    → has_text k (keep_if b u us) ≡ true
unfolding has_text
kept_text k u true us h = ground arith
kept_text k u false us h = h

has_text-filter :
    (k : Text) (test : Text → Bool) (us : List Text)
    → test k ≡ true
    → has_text k us ≡ true
    → has_text k (filter test us) ≡ true
unfolding has_text
has_text-filter k test [] e h = cc
has_text-filter k test (u ∷ us) e h = elim (Bool-cases (text_eq u k)) [
  | inl f ↦ let same : test u ≡ true = ap test ((text_eq_iff u k).0 f) ∙ e in rw (same, f, has_text)
  | inr f ↦
      kept_text k u (test u) (filter test us) (has_text-filter k test us e (rw (f, has_text) at h))
]

unkept_text :
    (k u : Text) (b : Bool) (us : List Text)
    → text_eq u k ≡ false
    → has_text k us ≡ false
    → has_text k (keep_if b u us) ≡ false
unfolding has_text
unkept_text k u true us e h = ground arith
unkept_text k u false us e h = h

-- What is not in a list is in no part of it.
no_text-filter :
    (k : Text) (test : Text → Bool) (us : List Text)
    → has_text k us ≡ false
    → has_text k (filter test us) ≡ false
unfolding has_text
no_text-filter k test [] h = refl
no_text-filter k test (u ∷ us) h =
    let here : text_eq u k ≡ false = ground arith in
    let later : has_text k us ≡ false = ground arith in
    unkept_text k u (test u) (filter test us) here (no_text-filter k test us later)

no_text-append :
    (k : Text) (us vs : List Text)
    → has_text k us ≡ false
    → has_text k vs ≡ false
    → has_text k (us ++ vs) ≡ false
unfolding has_text
no_text-append k [] vs h e = e
no_text-append k (u ∷ us) vs h e =
    let here : text_eq u k ≡ false = ground arith in
    let later : has_text k us ≡ false = ground arith in
    let rest = no_text-append k us vs later e in rw (here, has_text) rest

remove_texts_keeps :
    (k : Text) (keys us : List Text)
    → has_text k keys ≡ false
    → has_text k us ≡ true
    → has_text k (remove_texts keys us) ≡ true
unfolding remove_texts
remove_texts_keeps k keys us e h = has_text-filter k (λ u. not (has_text u keys)) us (ap not e) h

kept_row :
    (d c : CaptureRow) (b : Bool) (cs : List CaptureRow) → Among d cs → Among d (keep_if b c cs)
kept_row d c true cs h = inr h
kept_row d c false cs h = h

Among-filter :
    (d : CaptureRow) (test : CaptureRow → Bool) (cs : List CaptureRow)
    → test d ≡ true
    → Among d cs
    → Among d (filter test cs)
Among-filter d test [] e h = h
Among-filter d test (c ∷ cs) e (inl same) =
    subst (λ b. Among d (keep_if b c (filter test cs))) (sym (ap test same ∙ e)) (inl same)
Among-filter d test (c ∷ cs) e (inr h) =
    kept_row d c (test c) (filter test cs) (Among-filter d test cs e h)

delete_row_keeps :
    (id : Text) (d : CaptureRow) (cs : List CaptureRow)
    → text_eq d.row_id id ≡ false
    → Among d cs
    → Among d (delete_row id cs)
unfolding delete_row
delete_row_keeps id d cs e h =
    Among-filter d (λ row. not (text_eq row.row_id id && row.is_quarantined)) cs
      (ap (λ b. not (b && d.is_quarantined)) e) h

any-Among :
    (test : CaptureRow → Bool) (d : CaptureRow) (cs : List CaptureRow)
    → test d ≡ true
    → Among d cs
    → any test cs ≡ true
any-Among test d [] e h = absurd h
any-Among test d (c ∷ cs) e (inl same) = let f : test c ≡ true = ap test same ∙ e in ground arith
any-Among test d (c ∷ cs) e (inr h) =
    let f : any test cs ≡ true = any-Among test d cs e h in ground arith

insert_row-All :
    (P : CaptureRow → Type 0) (r : CaptureRow) (cs : List CaptureRow)
    → P r
    → All P cs
    → All P (insert_row r cs)
unfolding insert_row
insert_row-All P r [] h a = (h, tt)
insert_row-All P r (c ∷ cs) h a =
    by_test (text_lt (time_of c) (time_of r)) (insert_row-All P r cs h a.1)
  where
    by_test :
        (b : Bool) → All P (insert_row r cs) → All P (if b then c ∷ insert_row r cs else r ∷ c ∷ cs)
    by_test true rest = (a.0, rest)
    by_test false rest = (h, a)

take-All : (P : CaptureRow → Type 0) (n : ℕ) (cs : List CaptureRow) → All P cs → All P (take n cs)
take-All P zero cs a = tt
take-All P (suc n) [] a = tt
take-All P (suc n) (c ∷ cs) a = (a.0, take-All P n cs a.1)

expired_rows-All :
    (P : CaptureRow → Type 0) (before : Text) (cs : List CaptureRow)
    → All (λ r. is_expired_row before r ≡ true → P r) cs
    → All P (expired_rows before cs)
unfolding expired_rows
expired_rows-All P before [] a = tt
expired_rows-All P before (c ∷ cs) a =
    by_test (is_expired_row before c) refl (expired_rows-All P before cs a.1)
  where
    by_test :
        (b : Bool)
        → is_expired_row before c ≡ b
        → All P (expired_rows before cs)
        → All P (if b then insert_row c (expired_rows before cs) else expired_rows before cs)
    by_test true e rest = insert_row-All P c (expired_rows before cs) (a.0 e) rest
    by_test false e rest = rest

module _ (parse_json : Text → Option Json) (d : CaptureRow) (k : Text)
    (owned : wacz_key parse_json d ≡ some k) where
  -- The row and its WACZ are there.
  abbrev pub Kept : Purge → Type 0
  Kept run = Among d run.captures × (has_text k run.bucket ≡ true)

  -- Another row, of which the WACZ is no other artifact.
  abbrev pub Unlike : CaptureRow → Type 0
  Unlike r = (text_eq d.row_id r.row_id ≡ false) × (has_text k (artifact_keys parse_json r) ≡ false)

  not_purged :
      (cs : List CaptureRow) (r : CaptureRow)
      → Unlike r
      → Among d cs
      → has_text k (purge_keys parse_json cs r) ≡ false
  unfolding purge_keys has_text
  not_purged cs r u h = by_key (wacz_key parse_json r) refl
    where
      by_shared :
          (key : Text) (b : Bool)
          → any (shares parse_json r.row_id key) cs ≡ b
          → has_text k
              (if b then artifact_keys parse_json r else artifact_keys parse_json r ++ (key ∷ []))
            ≡ false
      by_shared key true e = u.1
      by_shared key false e = elim (Bool-cases (text_eq key k)) [
        | inr f ↦ no_text-append k (artifact_keys parse_json r) (key ∷ []) u.1 (rw (f, has_text))
        | inl f ↦
            let same : text_eq k key ≡ true =
              (text_eq_iff k key).1 (sym ((text_eq_iff key k).0 f)) in
            let shared : shares parse_json r.row_id key d ≡ true = rw (owned, u.0, same) in
            let found : any (shares parse_json r.row_id key) cs ≡ true =
              any-Among _ d cs shared h in
            cc
      ]

      by_key :
          (o : Option Text)
          → wacz_key parse_json r ≡ o
          → has_text k (purge_keys parse_json cs r) ≡ false
      by_key none e = rw (e, purge_keys) (u.1)
      by_key (some key) e =
          rw (e, purge_keys) (by_shared key (any (shares parse_json r.row_id key) cs) refl)

  failed_row-Kept :
      (deleted : List Text) (run : Purge)
      → has_text k deleted ≡ false
      → Kept run
      → Kept (failed_row parse_json deleted run)
  failed_row-Kept deleted run e h = (h.0, remove_texts_keeps k deleted run.bucket e h.1)

  purged_row-Kept :
      (deleted : List Text) (r : CaptureRow) (run : Purge)
      → Unlike r
      → has_text k deleted ≡ false
      → Kept run
      → Kept (purged_row parse_json deleted r.row_id run)
  purged_row-Kept deleted r run u e h = (
    delete_row_keeps r.row_id d run.captures u.0 h.0,
    remove_texts_keeps k deleted run.bucket e h.1,
  )

  with_fault-Kept :
      (f : Fault) (r : CaptureRow) (run : Purge)
      → Unlike r
      → Kept run
      → Kept (with_fault parse_json f r run)
  unfolding has_text
  with_fault-Kept no_fault r run u h =
      purged_row-Kept (purge_keys parse_json run.captures r) r run u
        (not_purged run.captures r u h.0) h
  with_fault-Kept batch_throws r run u h =
      failed_row-Kept (purge_keys parse_json run.captures r) run (not_purged run.captures r u h.0) h
  with_fault-Kept lookup_throws r run u h = by_key (wacz_key parse_json r)
    where
      by_key :
          (o : Option Text)
          → Kept (elim o [
            | none ↦ purged_row parse_json (purge_keys parse_json run.captures r) r.row_id run
            | some key ↦ failed_row parse_json [] run
          ])
      by_key none =
          purged_row-Kept (purge_keys parse_json run.captures r) r run u
            (not_purged run.captures r u h.0) h
      by_key (some key) = failed_row-Kept [] run refl h
  with_fault-Kept (delete_throws test) r run u h =
      by_keys (purge_keys parse_json run.captures r) (not_purged run.captures r u h.0)
    where
      by_keys :
          (ks : List Text)
          → has_text k ks ≡ false
          → Kept (elim ks [
            | [] ↦ purged_row parse_json [] r.row_id run
            | j ∷ js ↦ failed_row parse_json (filter test (j ∷ js)) run
          ])
      by_keys [] e = purged_row-Kept [] r run u refl h
      by_keys (j ∷ js) e =
          failed_row-Kept (filter test (j ∷ js)) run (no_text-filter k test (j ∷ js) e) h

  purge_rows-Kept :
      (fault : CaptureRow → Fault) (rows : List CaptureRow) (run : Purge)
      → All Unlike rows
      → Kept run
      → Kept (purge_rows parse_json fault rows run)
  unfolding purge_rows
  purge_rows-Kept fault [] run u h = h
  purge_rows-Kept fault (r ∷ rows) run u h =
      purge_rows-Kept fault rows (with_fault parse_json (fault r) r run) u.1
        (with_fault-Kept (fault r) r run u.0 h)

  -- Whatever throws, a purge keeps a row together with its WACZ in the bucket, when the purge is not to
  -- delete the row: no row that is quarantined long enough has its id, and none has its WACZ among its
  -- other artifacts. It does so also when a row that is purged has the same WACZ.
  pub purge_quarantined_captures-Kept :
      (fault : CaptureRow → Fault) (before : Text) (limit : ℕ) (run : Purge)
      → All (λ r. is_expired_row before r ≡ true → Unlike r) run.captures
      → Kept run
      → Kept (purge_quarantined_captures parse_json fault before limit run)
  unfolding purge_quarantined_captures
  purge_quarantined_captures-Kept fault before limit run u h =
      purge_rows-Kept fault (take limit (expired_rows before run.captures)) run
        (take-All Unlike limit (expired_rows before run.captures)
          (expired_rows-All Unlike before run.captures u))
        h
