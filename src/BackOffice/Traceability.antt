-- ===== src/BackOffice/Traceability.antt =====
-- compliance/traceability.py: the registry of regulatory sources and its digest.
use hedge_desk.Prelude.{
  String, Bool, false, not, ◌||◌, List, [], ◌∷◌, ◌++◌, map, length, any, value_error, Result, ok,
  checks, ◌>>◌, flags, canonical, is_canonical, has_double, is_blank, is_empty, starts_with,
}
use hedge_desk.Digest.{Digest, Field, text, texts, count, flag}

pub record RegulatoryRequirement : Type 0 where
  pub requirement_id : String
  pub authority : String
  pub source_url : String
  pub applicability : String
  pub reason_codes : List String
  pub test_module : String
  pub counsel_approved_for_live : Bool

abbrev pub reference_requirements : List RegulatoryRequirement
reference_requirements =
    record {
      requirement_id = "finra-options-account-controls";
      authority = "FINRA";
      source_url = "https://www.finra.org/finramanual/rules/r2360";
      applicability = "options approval, disclosure, diligence, and account controls";
      reason_codes =
          "OPTIONS_APPROVAL_REQUIRED" ∷ "OPTIONS_DISCLOSURE_ACKNOWLEDGEMENT_REQUIRED" ∷ [];
      test_module = "tests.test_account_gate";
      counsel_approved_for_live = false;
    }
    ∷ record {
      requirement_id = "occ-options-risk-disclosure";
      authority = "OCC";
      source_url =
          "https://www.theocc.com/company-information/documents-and-archives/options-disclosure-document";
      applicability = "current options disclosure acknowledgement evidence";
      reason_codes = "OPTIONS_DISCLOSURE_ACKNOWLEDGEMENT_REQUIRED" ∷ [];
      test_module = "tests.test_account_gate";
      counsel_approved_for_live = false;
    }
    ∷ record {
      requirement_id = "sec-automated-adviser-boundary";
      authority = "SEC";
      source_url = "https://www.sec.gov/newsroom/press-releases/2017-52";
      applicability = "automated securities advice remains subject to adviser analysis";
      reason_codes = "PAPER_ONLY_VIOLATION" ∷ [];
      test_module = "tests.test_backoffice";
      counsel_approved_for_live = false;
    }
    ∷ record {
      requirement_id = "cftc-hypothetical-results";
      authority = "CFTC";
      source_url =
          "https://www.cftc.gov/LearnAndProtect/AdvisoriesAndArticles/fraudadv_tradingsystem.html";
      applicability = "hypothetical results require conspicuous limitations";
      reason_codes = "HYPOTHETICAL_LABEL_REQUIRED" ∷ [];
      test_module = "tests.test_reporting";
      counsel_approved_for_live = false;
    }
    ∷ record {
      requirement_id = "finra-books-records";
      authority = "FINRA";
      source_url = "https://www.finra.org/rules-guidance/key-topics/books-records";
      applicability = "future regulated retention requires external recordkeeping analysis";
      reason_codes = "AUDIT_JOURNAL_CORRUPT" ∷ [];
      test_module = "tests.test_audit_store";
      counsel_approved_for_live = false;
    }
    ∷ []

abbrev allowed_hosts : List String
allowed_hosts =
    "https://www.finra.org/" ∷ "https://www.sec.gov/" ∷ "https://www.cftc.gov/"
    ∷ "https://www.theocc.com/" ∷ []

requirement_flags : RegulatoryRequirement → List (Bool × String)
requirement_flags r =
    (
      is_blank r.requirement_id || is_blank r.authority || is_blank r.applicability,
      "REGULATORY_REQUIREMENT_INCOMPLETE",
    )
    ∷ (
      not (any (λ host. starts_with r.source_url host) allowed_hosts),
      "REGULATORY_SOURCE_NOT_AUTHORITATIVE",
    )
    ∷ (
      is_empty r.reason_codes || not (is_canonical r.reason_codes),
      "REGULATORY_REASON_MAPPING_INVALID",
    )
    ∷ (not (starts_with r.test_module "tests.test_"), "REGULATORY_TEST_REFERENCE_INVALID")
    ∷ []

all_requirement_flags : List RegulatoryRequirement → List (Bool × String)
unfolding requirement_flags
all_requirement_flags [] = []
all_requirement_flags (r ∷ rs) = requirement_flags r ++ all_requirement_flags rs

unfoldable pub validate_traceability_registry : List RegulatoryRequirement → List String
unfolding all_requirement_flags flags canonical is_canonical has_double
validate_traceability_registry rs = canonical (
    flags (
      (
        is_empty rs || has_double (map (λ r. r.requirement_id) rs),
        "REGULATORY_REQUIREMENT_ID_INVALID",
      )
      ∷ all_requirement_flags rs))

requirement_rows : List RegulatoryRequirement → List Field
requirement_rows [] = []
requirement_rows (r ∷ rs) =
    text r.requirement_id
    ∷ text r.authority
    ∷ text r.source_url
    ∷ text r.applicability
    ∷ texts r.reason_codes
    ∷ text r.test_module
    ∷ flag r.counsel_approved_for_live
    ∷ requirement_rows rs

unfoldable pub traceability_sha256 : Digest → List RegulatoryRequirement → Result String
unfolding validate_traceability_registry requirement_rows checks
traceability_sha256 digest rs = do
  checks (
      (
        not (is_empty (validate_traceability_registry rs)),
        value_error "regulatory traceability registry invalid",
      )
      ∷ [])
  ok (digest (text "regulatory-traceability-1.0.0" ∷ count (length rs) ∷ requirement_rows rs))
