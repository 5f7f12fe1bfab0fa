-- ===== src/Retention/Tests.antt =====
-- Two captures with one WACZ, of which the older is purged.
use web_resource_ledger.Prelude.{◌≡◌, refl, [], ◌∷◌, Option, some, true, inl, inr}
use web_resource_ledger.Prelude.Texts.{Text, codes, text_eq}
use web_resource_ledger.Prelude.Sorting.{text_lt}
use web_resource_ledger.Json.{Json, string, object, member, no_members, find_member}
use web_resource_ledger.Verify.Values.{prop}
use web_resource_ledger.Retention.{
  CaptureRow, Purge, Fault, no_fault, has_text, member_keys, artifact_keys, wacz_key,
  purge_quarantined_captures,
}
use web_resource_ledger.Retention.Kept.{Kept, purge_quarantined_captures-Kept}

-- The WACZ column is the key itself, with nothing else in it.
abbrev parse : Text → Option Json
parse t = some (object (member (codes "key") (string t) no_members))

abbrev old : CaptureRow
old = record {
  row_id = codes "1";
  artifacts = some (codes "a/1.png");
  wacz = some (codes "w/1");
  is_quarantined = true;
  quarantined_at = some (codes "2026-01-01");
}

abbrev young : CaptureRow
young = record {
  row_id = codes "2";
  artifacts = some (codes "a/2.png");
  wacz = some (codes "w/1");
  is_quarantined = true;
  quarantined_at = some (codes "2026-05-01");
}

abbrev run : Purge
run = record {
  captures = old ∷ young ∷ [];
  threat_checks = codes "1" ∷ [];
  bucket = codes "a/1.png" ∷ codes "w/1" ∷ [];
  purged = 0;
  failed = 0;
}

abbrev no_faults : CaptureRow → Fault
no_faults row = no_fault

young_wacz : wacz_key parse young ≡ some (codes "w/1")
unfolding wacz_key prop find_member text_eq
young_wacz = refl

purge_quarantined_captures-Kept_example :
    Kept parse young
      (codes "w/1")
      young_wacz
      (purge_quarantined_captures parse no_faults (codes "2026-03-01") 100 run)
unfolding text_eq text_lt has_text artifact_keys member_keys wacz_key prop find_member
purge_quarantined_captures-Kept_example =
    purge_quarantined_captures-Kept parse young (codes "w/1") young_wacz no_faults
      (codes "2026-03-01") 100 run ((λ e. (refl, refl)), ((λ e. cc), tt)) (inr (inl refl), refl)
