-- ===== src/Domain/Candidate.antt =====
-- `CandidateFinancial` and `Candidate` of domain.py, with the checks of their `__post_init__`.
-- The tests on the classes of the arguments hold by the types here.
use alpha_orchestration.Prelude.{
  String, Bool, not, List, [], ◌∷◌, ◌&&◌, true, false, all, contains, all_unique,
}
use alpha_orchestration.Prelude.Int.{ℤ, pos, leb_ℤ}
use alpha_orchestration.Prelude.Text.{strip, is_empty}
use alpha_orchestration.Result.{Result, ok, guard, ◌>>◌, value_error}
use alpha_orchestration.Json.{Float, finite}
use alpha_orchestration.Domain.Enums.{
  CandidateBucket, CandidateConfidence, CandidateDataQuality, CandidateSourceMode,
}

pub record CandidateFinancial : Type 0 where
  pub metric : String
  pub label : String
  pub value : Float
  pub unit : String
  pub period : String
  pub source_ids : List String

-- `isfinite(value)`
abbrev pub is_finite : Float → Bool
is_finite (finite m e) = true
is_finite f = false

-- `bool(value.strip())`
abbrev pub has_text : String → Bool
has_text s = not (is_empty (strip s))

unfoldable pub make_financial : CandidateFinancial → Result CandidateFinancial
make_financial f = do
  guard (has_text f.metric && has_text f.label && has_text f.unit && has_text f.period) value_error
  guard (is_finite f.value) value_error
  guard (all has_text f.source_ids) value_error
  guard (all_unique f.source_ids) value_error
  ok f

pub record Candidate : Type 0 where
  pub candidate_id : String
  pub ticker : String
  pub company : String
  pub bucket : CandidateBucket
  pub priority_score : ℤ
  pub variant_wedge : String
  pub why_now : String
  pub first_rejection : String
  pub investable_if : String
  pub kill_if : String
  pub next_workflow : String
  pub evidence_ids : List String
  pub financials : List CandidateFinancial
  pub confidence : CandidateConfidence
  pub data_quality : CandidateDataQuality
  pub as_of : String
  pub source_mode : CandidateSourceMode
  pub evidence_gaps : List String

abbrev named_texts : Candidate → List String
named_texts c =
    c.candidate_id ∷ c.ticker ∷ c.company ∷ c.variant_wedge ∷ c.why_now ∷ c.first_rejection
    ∷ c.investable_if ∷ c.kill_if ∷ c.next_workflow ∷ []

-- No named text is blank.
unfoldable pub texts_present : Candidate → Bool
texts_present c = all has_text (named_texts c)

-- `financial_source_ids.issubset(self.evidence_ids)`
abbrev pub sources_listed : Candidate → Bool
sources_listed c = all (λ f. all (contains c.evidence_ids) f.source_ids) c.financials

unfoldable pub make_candidate : Candidate → Result Candidate
make_candidate c = do
  guard (texts_present c) value_error
  guard (leb_ℤ (pos 0) c.priority_score && leb_ℤ c.priority_score (pos 100)) value_error
  guard (all has_text c.evidence_ids) value_error
  guard (all_unique c.evidence_ids) value_error
  guard (has_text c.as_of) value_error
  guard (all has_text c.evidence_gaps) value_error
  guard (sources_listed c) value_error
  ok c
