-- ===== src/Warc/Index.antt =====
-- src/warc.js: the entries of `recordMeta` tell where the records stand.
use web_resource_ledger.Prelude.{
  ℕ, ◌+◌, ◌≡◌, refl, ap, sym, ◌∙◌, subst, List, [], ◌∷◌, ◌++◌, append_assoc, append-nil, Option,
  none, some, length, All, All-append, arith, length-append,
}
use web_resource_ledger.Prelude.Texts.{Text}
use web_resource_ledger.Warc.{
  RecordOptions, RecordMeta, Artifacts, RecordIds, Draft, concat_chunks, build_record, sha256,
  push_record, warcinfo_options, start_draft, push_headers, push_after, draft_of, build_warc,
}

concat_chunks-append :
    (xs ys : List (List ℕ)) → concat_chunks (xs ++ ys) ≡ concat_chunks xs ++ concat_chunks ys
unfolding concat_chunks
concat_chunks-append [] ys = refl
concat_chunks-append (x ∷ xs) ys =
    ap (λ t. x ++ t) (concat_chunks-append xs ys)
    ∙ sym (append_assoc x (concat_chunks xs) (concat_chunks ys))

-- The entries follow each other without a gap, from one offset to another.
pub Tiles : ℕ → List RecordMeta → ℕ → Type 0
Tiles start [] end = start ≡ end
Tiles start (m ∷ ms) end = (m.offset ≡ start) × Tiles (m.offset + m.record_length) ms end

Tiles-append :
    (start : ℕ) (ms : List RecordMeta) (m : RecordMeta)
    → Tiles start ms m.offset
    → Tiles start (ms ++ (m ∷ [])) (m.offset + m.record_length)
unfolding Tiles
Tiles-append start [] m h = (sym h, refl)
Tiles-append start (k ∷ ms) m (e, h) = (e, Tiles-append (k.offset + k.record_length) ms m h)

module _ (encode : Text → List ℕ) (sha256_digest : List ℕ → List ℕ) where
  -- The bytes hold the entry's record at its offset, with its length, type and address, and the digest
  -- of the record's body.
  pub record IsEntry (bytes : List ℕ) (m : RecordMeta) : Type 0 where
    pub options : RecordOptions
    pub before : List ℕ
    pub after : List ℕ
    pub cut : bytes ≡ before ++ (build_record encode sha256_digest options ++ after)
    pub at_offset : length before ≡ m.offset
    pub same_length : length (build_record encode sha256_digest options) ≡ m.record_length
    pub same_type : options.type ≡ m.meta_type
    pub same_url : options.target_uri ≡ m.meta_url
    pub same_digest : sha256 encode sha256_digest options.body ≡ m.digest

  -- More bytes at the end do not move a record.
  IsEntry-append :
      (bytes more : List ℕ) (m : RecordMeta) → IsEntry bytes m → IsEntry (bytes ++ more) m
  IsEntry-append bytes more m e = record {
    options = e.options;
    before = e.before;
    at_offset = e.at_offset;
    same_length = e.same_length;
    same_type = e.same_type;
    same_url = e.same_url;
    same_digest = e.same_digest;
    after = e.after ++ more;
    cut =
        ap (λ t. t ++ more) e.cut
        ∙ append_assoc e.before (build_record encode sha256_digest e.options ++ e.after) more
        ∙ ap (λ t. e.before ++ t)
            (append_assoc (build_record encode sha256_digest e.options) e.after more);
  }

  IsEntry-All :
      (bytes more : List ℕ) (ms : List RecordMeta)
      → All (IsEntry bytes) ms
      → All (IsEntry (bytes ++ more)) ms
  IsEntry-All bytes more [] h = tt
  IsEntry-All bytes more (m ∷ ms) (e, h) =
      (IsEntry-append bytes more m e, IsEntry-All bytes more ms h)

  -- What is kept while records are added: the entries are right, and tile what follows `first`.
  pub record IsIndexed (first : ℕ) (d : Draft) : Type 0 where
    pub entries : All (IsEntry (concat_chunks d.chunks)) d.record_meta
    pub tiled : Tiles first d.record_meta d.draft_offset
    pub end : length (concat_chunks d.chunks) ≡ d.draft_offset

  push_record-IsIndexed :
      (first : ℕ) (o : RecordOptions) (mime status ts14 : Text) (d : Draft)
      → IsIndexed first d
      → IsIndexed first (push_record encode sha256_digest o mime status ts14 d)
  unfolding push_record concat_chunks
  push_record-IsIndexed first o mime status ts14 d i =
      let bytes = concat_chunks d.chunks in
      let chunk = build_record encode sha256_digest o in
      let whole : concat_chunks (d.chunks ++ (chunk ∷ [])) ≡ bytes ++ (chunk ++ []) =
        concat_chunks-append d.chunks (chunk ∷ []) in
      record {
        entries =
            subst
              (λ b.
                All (IsEntry b) (push_record encode sha256_digest o mime status ts14 d).record_meta)
              (sym whole)
              (All-append (IsEntry (bytes ++ (chunk ++ []))) d.record_meta _
                (IsEntry-All bytes (chunk ++ []) d.record_meta i.entries)
                (
                  record {
                    options = o;
                    before = bytes;
                    after = [];
                    cut = refl;
                    at_offset = i.end;
                    same_length = refl;
                    same_type = refl;
                    same_url = refl;
                    same_digest = refl;
                  },
                  tt,
                ));
        tiled = Tiles-append first d.record_meta _ i.tiled;
        end =
            ap length whole
            ∙ omega
                (arith, length-append {0} bytes (chunk ++ []), length-append {0} chunk [], i.end);
      }

  module _ (url iso_date ts14 : Text) (ids : RecordIds) where
    abbrev first_offset : ℕ
    first_offset = length (
        build_record encode sha256_digest
          (warcinfo_options encode sha256_digest url iso_date ts14 ids))

    start-IsIndexed :
        IsIndexed first_offset (start_draft encode sha256_digest url iso_date ts14 ids)
    unfolding concat_chunks Tiles
    start-IsIndexed = record {
      entries = tt;
      tiled = refl;
      end = ap length (
          append-nil (
            build_record encode sha256_digest
              (warcinfo_options encode sha256_digest url iso_date ts14 ids)));
    }

    push_headers-IsIndexed :
        (headers : Option Text) (d : Draft)
        → IsIndexed first_offset d
        → IsIndexed first_offset (push_headers encode sha256_digest url iso_date ts14 ids headers d)
    push_headers-IsIndexed none d i = i
    push_headers-IsIndexed (some json) d i = push_record-IsIndexed first_offset _ _ _ _ d i

    push_after-IsIndexed :
        (png : Option (List ℕ)) (d : Draft)
        → IsIndexed first_offset d
        → IsIndexed first_offset (push_after encode sha256_digest url iso_date ts14 ids png d)
    push_after-IsIndexed none d i = i
    push_after-IsIndexed (some png) d i = push_record-IsIndexed first_offset _ _ _ _ d i

    -- Every entry of `recordMeta` is right about the WARC: at its offset stands a record of its length,
    -- type and address, whose body has its digest; and the entries follow each other without a gap from
    -- the end of the warcinfo record to the end of the WARC.
    pub build_warc-IsEntry :
        (a : Artifacts)
        → All
            (IsEntry (build_warc encode sha256_digest url iso_date ts14 ids a).0)
            (build_warc encode sha256_digest url iso_date ts14 ids a).1
          × Tiles first_offset
              (build_warc encode sha256_digest url iso_date ts14 ids a).1
              (length (build_warc encode sha256_digest url iso_date ts14 ids a).0)
    unfolding build_warc draft_of
    build_warc-IsEntry a =
        let html = push_record-IsIndexed first_offset _ _ _ _ _ start-IsIndexed in
        let headers = push_headers-IsIndexed a.headers_json _ html in
        let before = push_record-IsIndexed first_offset _ _ _ _ _ headers in
        let whole = push_after-IsIndexed a.screenshot_after _ before in
        (whole.entries, subst (Tiles first_offset _) (sym whole.end) whole.tiled)
