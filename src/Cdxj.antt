-- ===== src/Cdxj.antt =====
-- src/cdxj.js: `buildCdxj`, `toSurt` and `toTimestamp14`. The URL parser and the JSON text of a value
-- are parameters, and so is the UTC calendar date of a text.
pub mod Order
mod Tests
use web_resource_ledger.Prelude.{
  ℕ, ◌+◌, List, [], ◌∷◌, ◌++◌, map, Option, none, some, if◌then◌else◌, ltb,
}
use mathlib.Core.List.{reverse}
use web_resource_ledger.Prelude.Texts.{Text, codes, join, split, starts_with}
use web_resource_ledger.Prelude.Sorting.{sort_pairs}
use web_resource_ledger.Prelude.Decimals.{print_decimal}
use web_resource_ledger.Json.{Json, string, number, object, member, no_members}
use web_resource_ledger.UrlValidation.{Url}
use web_resource_ledger.Warc.{RecordMeta, warcinfo, resource, metadata}

pub record UtcDate : Type 0 where
  pub year : ℕ
  pub month : ℕ
  pub day : ℕ
  pub hours : ℕ
  pub minutes : ℕ
  pub seconds : ℕ

-- `String(n).padStart(2, '0')`
abbrev pub pad : ℕ → Text
pad n = if ltb n 10 then b'0' ∷ print_decimal n else print_decimal n

unfoldable pub to_timestamp14 : UtcDate → Text
to_timestamp14 d =
    print_decimal d.year
    ++ pad d.month
    ++ pad d.day
    ++ pad d.hours
    ++ pad d.minutes
    ++ pad d.seconds

-- Each line and its newline.
unfoldable pub print_lines : List (Text × Text) → Text
print_lines [] = []
print_lines (l ∷ lines) = join 10 (map (λ p. p.1) (l ∷ lines)) ++ (10 ∷ [])

module _ (parse_url : Text → Option Url) (stringify : Json → Text) where
  unfoldable pub to_surt : Text → Text
  to_surt url = if starts_with url (codes "urn:") then url else (elim (parse_url url) [
    | none ↦ url
    | some parsed ↦
        join b',' (reverse (split b'.' parsed.hostname))
        ++ codes ")"
        ++ (parsed.pathname ++ parsed.search ++ parsed.hash)
  ])

  abbrev pub block_of : Text → RecordMeta → Json
  block_of filename m = object (
      member (codes "url") (string m.meta_url) (
        member (codes "mime") (string m.mime) (
          member (codes "status") (string m.meta_status) (
            member (codes "digest") (string m.digest) (
              member (codes "offset") (number (print_decimal m.offset)) (
                member (codes "length") (number (print_decimal m.record_length))
                  (member (codes "filename") (string filename) no_members)))))))

  -- The sort key and the line of a record.
  abbrev pub entry_of : Text → RecordMeta → Text × Text
  entry_of filename m = (
    to_surt m.meta_url,
    to_surt m.meta_url ++ codes " " ++ m.ts14 ++ codes " " ++ stringify (block_of filename m),
  )

  -- The loop, which skips warcinfo records.
  unfoldable pub lines_of : List RecordMeta → Text → List (Text × Text)
  lines_of [] filename = []
  lines_of (m ∷ ms) filename =
      let rest = lines_of ms filename in
      elim m.meta_type [
        | warcinfo ↦ rest
        | resource ↦ entry_of filename m ∷ rest
        | metadata ↦ entry_of filename m ∷ rest
      ]

  unfoldable pub build_cdxj : List RecordMeta → Text → Text
  build_cdxj record_meta filename = print_lines (sort_pairs (lines_of record_meta filename))
