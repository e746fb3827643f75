-- ===== src/Paper/Log.antt =====
-- paper_log.py: the append-only log of paper outcomes, as the list of its entries. What is in an entry may
-- have been changed since it was written.
use hedge_desk.Prelude.{
  ◌+◌, ℕ, String, Bool, true, false, not, ◌||◌, Option, none, some, List, [], ◌∷◌, ◌++◌, any, has,
  length, map, value_error, Result, ok, err, checks, ◌>>=◌, ◌>>◌, flags, canonical, is_blank,
  is_empty, str_eq, if◌then◌else◌,
}
use hedge_desk.Time.{DateTime, naive}
use hedge_desk.Dict.{Dict, get, put}
use hedge_desk.Digest.{Digest, Field, text, moment, flag, absent}

abbrev pub allowed_outcomes : List String
allowed_outcomes =
    "NEVER_ENTERED" ∷ "ENTERED_PAPER" ∷ "EXPIRED_WORTHLESS" ∷ "ASSIGNED" ∷ "STOPPED" ∷ "CLOSED_GAIN"
    ∷ "CLOSED_LOSS" ∷ "UNKNOWN" ∷ []

abbrev strategies : List String
strategies = "CASH_SECURED_PUT" ∷ "COVERED_CALL" ∷ "CREDIT_SPREAD" ∷ []

-- The arguments of `append_outcome`, of which recorded_at is given; the provenance by its leaves.
pub record Outcome : Type 0 where
  pub candidate_id : String
  pub symbol : String
  pub strategy : String
  pub outcome : String
  pub entered_at : Option DateTime
  pub exit_price : Option String
  pub premium_received : Option String
  pub recorded_at : DateTime
  pub provenance : List Field

-- An entry of the log, whose schema_version and trade_authorized are constants.
pub record LogEntry : Type 0 where
  pub seq : ℕ
  pub content : Outcome
  pub entry_sha256 : String

abbrev pub log_version : String
log_version = "hedge-desk-paper-outcome-log-1.0.0"

abbrev pub text_or_null : Option String → Field
text_or_null none = absent
text_or_null (some s) = text s

abbrev pub time_or_null : Option DateTime → Field
time_or_null none = absent
time_or_null (some t) = moment t

-- The leaves of `body` in `_hash_entry`, by their sorted names.
unfoldable pub entry_body : Outcome → List Field
entry_body o =
    text o.candidate_id
    ∷ time_or_null o.entered_at
    ∷ text_or_null o.exit_price
    ∷ text o.outcome
    ∷ text_or_null o.premium_received
    ∷ (o.provenance
        ++ moment o.recorded_at
          ∷ text log_version
          ∷ text o.strategy
          ∷ text o.symbol
          ∷ flag false
          ∷ [])

unfoldable pub hash_entry : Digest → Outcome → String
hash_entry digest o = digest (entry_body o)

abbrev pub is_unzoned_entry : Option DateTime → Bool
is_unzoned_entry (some (naive t)) = true
is_unzoned_entry _ = false

unfoldable pub outcome_flags : Outcome → List (Bool × String)
outcome_flags o =
    (is_blank o.candidate_id || is_blank o.symbol, "CANDIDATE_IDENTITY_MISSING")
    ∷ (not (has o.strategy strategies), "UNKNOWN_STRATEGY")
    ∷ (not (has o.outcome allowed_outcomes), "UNKNOWN_OUTCOME")
    ∷ (is_unzoned_entry o.entered_at, "ENTRY_TIME_NOT_UTC")
    ∷ []

unfoldable pub validate_entry : Outcome → List String
validate_entry o = canonical (flags (outcome_flags o))

-- The new log and its new entry. The message goes on with the reasons.
unfoldable pub append_outcome : Digest → List LogEntry → Outcome → Result (List LogEntry × LogEntry)
append_outcome digest log o = do
  checks ((not (is_empty (validate_entry o)), value_error "paper outcome invalid") ∷ [])
  let e : LogEntry = record {
    seq = length log + 1;
    content = o;
    entry_sha256 = hash_entry digest o;
  }
  ok (log ++ e ∷ [], e)

abbrev pub is_tampered : Digest → LogEntry → Bool
is_tampered digest e = not (str_eq e.entry_sha256 (hash_entry digest e.content))

-- The message goes on with the number of the entry.
unfoldable pub read_log : Digest → List LogEntry → Result (List LogEntry)
read_log digest log =
    if any (is_tampered digest) log then err (value_error "paper log entry tampered") else ok log

pub record Summary : Type 0 where
  pub entry_count : ℕ
  pub symbol_count : ℕ
  pub outcome_counts : Dict ℕ

-- counts.get(outcome, 0)
abbrev count_or_zero : Option ℕ → ℕ
count_or_zero none = 0
count_or_zero (some n) = n

unfoldable pub count_outcomes : List LogEntry → Dict ℕ → Dict ℕ
count_outcomes [] counts = counts
count_outcomes (e ∷ rest) counts =
    count_outcomes rest
      (put e.content.outcome (count_or_zero (get e.content.outcome counts) + 1) counts)

-- The number of texts in canonical is that of the set.
unfoldable pub summarize : Digest → List LogEntry → Result Summary
summarize digest log = do
  entries ← read_log digest log
  ok (record {
    entry_count = length entries;
    symbol_count = length (canonical (map (λ e. e.content.symbol) entries));
    outcome_counts = count_outcomes entries [];
  })
