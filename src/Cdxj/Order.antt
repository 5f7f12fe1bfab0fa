-- ===== src/Cdxj/Order.antt =====
-- src/cdxj.js: the index is sorted, and has a line for every record that it should have.
use web_resource_ledger.Prelude.{
  ◌≡◌, refl, ap, subst, List, [], ◌∷◌, ◌++◌, map, filter, Bool, true, false, Option,
}
use mathlib.Core.List.{Perm, Pairwise}
use web_resource_ledger.Prelude.Texts.{Text, codes}
use web_resource_ledger.Prelude.Sorting.{sort_pairs, NotAfter, sort_pairs-perm, sort_pairs-Pairwise}
use web_resource_ledger.Json.{Json}
use web_resource_ledger.UrlValidation.{Url}
use web_resource_ledger.Warc.{RecordMeta, RecordType, warcinfo, resource, metadata}
use web_resource_ledger.Cdxj.{to_surt, block_of, lines_of, print_lines, build_cdxj}

-- The types of the records that have a line.
abbrev is_indexed : RecordType → Bool
is_indexed warcinfo = false
is_indexed resource = true
is_indexed metadata = true

module _ (parse_url : Text → Option Url) (stringify : Json → Text) where
  -- The line that a record should have, with its SURT as the key: the SURT, the timestamp and the JSON block.
  abbrev line_for : Text → RecordMeta → Text × Text
  line_for filename m = (
    to_surt parse_url stringify m.meta_url,
    to_surt parse_url stringify m.meta_url
        ++ codes " "
        ++ m.ts14
        ++ codes " "
        ++ stringify (block_of parse_url stringify filename m),
  )

  -- An index text: its lines with their SURT keys, of which there is exactly one for each record that
  -- should have one.
  pub record IsIndex (ms : List RecordMeta) (filename cdxj : Text) : Type 0 where
    pub lines : List (Text × Text)
    pub printed : cdxj ≡ print_lines lines
    pub sorted : Pairwise NotAfter lines
    pub complete : Perm lines (map (line_for filename) (filter (λ m. is_indexed m.meta_type) ms))

  lines_of_lem :
      (filename : Text) (ms : List RecordMeta)
      → lines_of parse_url stringify ms filename
        ≡ map (line_for filename) (filter (λ m. is_indexed m.meta_type) ms)
  unfolding lines_of
  lines_of_lem filename [] = refl
  lines_of_lem filename (m ∷ ms) = by_type m.meta_type refl (lines_of_lem filename ms)
    where
      by_type :
          (t : RecordType)
          → m.meta_type ≡ t
          → lines_of parse_url stringify ms filename
            ≡ map (line_for filename) (filter (λ m'. is_indexed m'.meta_type) ms)
          → lines_of parse_url stringify (m ∷ ms) filename
            ≡ map (line_for filename) (filter (λ m'. is_indexed m'.meta_type) (m ∷ ms))
      by_type warcinfo e rest = rw (e, lines_of) rest
      by_type resource e rest = rw (e, lines_of) (ap (λ t. line_for filename m ∷ t) rest)
      by_type metadata e rest = rw (e, lines_of) (ap (λ t. line_for filename m ∷ t) rest)

  -- The index prints the lines of the records that are no warcinfo, exactly one for each, in the order of
  -- their SURT keys: the SURT of the record's URL, its timestamp and its JSON block.
  pub build_cdxj-IsIndex :
      (ms : List RecordMeta) (filename : Text)
      → IsIndex ms filename (build_cdxj parse_url stringify ms filename)
  unfolding build_cdxj
  build_cdxj-IsIndex ms filename = record {
    lines = sort_pairs (lines_of parse_url stringify ms filename);
    printed = refl;
    sorted = sort_pairs-Pairwise (lines_of parse_url stringify ms filename);
    complete =
        subst (Perm (sort_pairs (lines_of parse_url stringify ms filename)))
          (lines_of_lem filename ms) (sort_pairs-perm (lines_of parse_url stringify ms filename));
  }
