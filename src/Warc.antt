-- ===== src/Warc.antt =====
-- src/warc.js: `buildWarc`, `buildRecord` and `sha256`. UTF-8 encoding, the SHA-256 digest and random
-- record ids are parameters, and so are the JSON text of the headers and the 14-digit time.
pub mod Index
mod Tests
use web_resource_ledger.Prelude.{ℕ, ◌+◌, List, [], ◌∷◌, ◌++◌, Option, none, some, length}
use web_resource_ledger.Prelude.Texts.{Text, codes, hex}
use web_resource_ledger.Prelude.Decimals.{print_decimal}

pub data RecordType : Type 0 where
  warcinfo resource metadata : RecordType

abbrev pub type_text : RecordType → Text
type_text warcinfo = codes "warcinfo"
type_text resource = codes "resource"
type_text metadata = codes "metadata"

-- The options of `buildRecord`; an option that is left out is empty, which is as good as an empty text.
pub record RecordOptions : Type 0 where
  pub type : RecordType
  pub record_id : Text
  pub target_uri : Text
  pub date : Text
  pub content_type : Text
  pub body : List ℕ
  pub refers_to : Text

-- An element of `recordMeta`.
pub record RecordMeta : Type 0 where
  pub meta_url : Text
  pub offset : ℕ
  pub record_length : ℕ
  pub mime : Text
  pub digest : Text
  pub meta_type : RecordType
  pub meta_status : Text
  pub ts14 : Text

pub record Artifacts : Type 0 where
  pub screenshot_before : List ℕ
  pub screenshot_after : Option (List ℕ)
  pub html : Text
  pub headers_json : Option Text

-- The ids of the records, in the order of their creation.
pub record RecordIds : Type 0 where
  pub warcinfo_id : Text
  pub html_id : Text
  pub headers_id : Text
  pub before_id : Text
  pub after_id : Text

-- The variables of `buildWarc`.
pub record Draft : Type 0 where
  pub chunks : List (List ℕ)
  pub record_meta : List RecordMeta
  pub draft_offset : ℕ

abbrev pub crlf : Text
crlf = 13 ∷ 10 ∷ []

-- `if (value) headerLines.push(...)`
abbrev pub header_line : Text → Text → List Text
header_line name [] = []
header_line name (c ∷ value) = (name ++ codes ": " ++ (c ∷ value)) ∷ []

unfoldable pub join_crlf : List Text → Text
join_crlf [] = []
join_crlf (line ∷ []) = line
join_crlf (line ∷ next ∷ lines) = line ++ crlf ++ join_crlf (next ∷ lines)

unfoldable pub header_text : RecordOptions → Text
header_text o =
    join_crlf (
      codes "WARC/1.1"
      ∷ (codes "WARC-Type: " ++ type_text o.type)
      ∷ (codes "WARC-Record-ID: " ++ o.record_id)
      ∷ (header_line (codes "WARC-Target-URI") o.target_uri
          ++ ((codes "WARC-Date: " ++ o.date)
              ∷ (header_line (codes "WARC-Refers-To") o.refers_to
                  ++ ((codes "Content-Type: " ++ o.content_type)
                      ∷ (codes "Content-Length: " ++ print_decimal (length o.body))
                      ∷ [])))))
    ++ crlf
    ++ crlf

unfoldable pub concat_chunks : List (List ℕ) → List ℕ
concat_chunks [] = []
concat_chunks (chunk ∷ chunks) = chunk ++ concat_chunks chunks

module _ (encode : Text → List ℕ) (sha256_digest : List ℕ → List ℕ) where
  unfoldable pub build_record : RecordOptions → List ℕ
  build_record o = encode (header_text o) ++ (o.body ++ encode (crlf ++ crlf))

  unfoldable pub sha256 : List ℕ → Text
  sha256 bytes = codes "sha256:" ++ hex (sha256_digest bytes)

  -- A chunk with its entry in `recordMeta`.
  unfoldable pub push_record : RecordOptions → (mime status ts14 : Text) → Draft → Draft
  push_record o mime status ts14 d =
      let chunk = build_record o in
      record {
        chunks = d.chunks ++ (chunk ∷ []);
        record_meta =
            d.record_meta
            ++ (record {
              meta_url = o.target_uri;
              offset = d.draft_offset;
              record_length = length chunk;
              mime = mime;
              digest = sha256 o.body;
              meta_type = o.type;
              meta_status = status;
              ts14 = ts14;
            }
                ∷ []);
        draft_offset = d.draft_offset + length chunk;
      }

  module _ (url iso_date ts14 : Text) (ids : RecordIds) where
    abbrev pub warcinfo_options : RecordOptions
    warcinfo_options = record {
      type = warcinfo;
      record_id = ids.warcinfo_id;
      target_uri = [];
      date = iso_date;
      content_type = codes "application/warc-fields";
      body = encode (codes "software: WRL/0.1" ++ crlf ++ codes "format: WARC/1.1" ++ crlf);
      refers_to = [];
    }

    abbrev pub resource_options : Text → Text → Text → List ℕ → RecordOptions
    resource_options id uri content_type body = record {
      type = resource;
      record_id = id;
      target_uri = uri;
      date = iso_date;
      content_type = content_type;
      body = body;
      refers_to = [];
    }

    abbrev pub headers_options : Text → RecordOptions
    headers_options json = record {
      type = metadata;
      record_id = ids.headers_id;
      target_uri = url;
      date = iso_date;
      content_type = codes "application/json";
      body = encode json;
      refers_to = ids.html_id;
    }

    -- The warcinfo record has no entry.
    abbrev pub start_draft : Draft
    start_draft = record {
      chunks = build_record warcinfo_options ∷ [];
      record_meta = [];
      draft_offset = length (build_record warcinfo_options);
    }

    abbrev pub push_html : Text → Draft → Draft
    push_html html =
        push_record
          (resource_options ids.html_id url (codes "text/html; charset=utf-8") (encode html))
          (codes "text/html") (codes "200") ts14

    abbrev pub push_headers : Option Text → Draft → Draft
    push_headers none d = d
    push_headers (some json) d =
        push_record (headers_options json) (codes "application/json") (codes "-") ts14 d

    abbrev pub push_screenshot : Text → Text → List ℕ → Draft → Draft
    push_screenshot id prefix png =
        push_record (resource_options id (prefix ++ url) (codes "image/png") png)
          (codes "image/png") (codes "200") ts14

    abbrev pub push_after : Option (List ℕ) → Draft → Draft
    push_after none d = d
    push_after (some png) d = push_screenshot ids.after_id (codes "urn:wrl:screenshot:after:") png d

    unfoldable pub draft_of : Artifacts → Draft
    draft_of a = push_after a.screenshot_after (
        push_screenshot ids.before_id (codes "urn:wrl:screenshot:before:") a.screenshot_before
          (push_headers a.headers_json (push_html a.html start_draft)))

    -- `warcBytes` and `recordMeta`.
    unfoldable pub build_warc : Artifacts → List ℕ × List RecordMeta
    build_warc a = (concat_chunks (draft_of a).chunks, (draft_of a).record_meta)
