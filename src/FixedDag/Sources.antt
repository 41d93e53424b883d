-- ===== src/FixedDag/Sources.antt =====
-- fixed_dag.py: the source identifiers of tool calls, of outputs and of tasks.
use alpha_orchestration.Prelude.{
  String, Bool, false, not, ◌&&◌, ◌||◌, Option, none, some, List, [], ◌∷◌, ◌++◌, ◌==◌, leb, all,
  keep, length, contains, all_unique, if◌then◌else◌,
}
use alpha_orchestration.Prelude.Dict.{Dict, lookup}
use alpha_orchestration.Prelude.Text.{text_length}
use alpha_orchestration.Json.{Json, str, arr, obj, Items, nil, cons, Fields, end, field, elements}
use alpha_orchestration.Domain.Candidate.{has_text}
use alpha_orchestration.FixedDag.{Bound, bound, unbound, ◌>>=◌, ◌>>◌, demand}

-- `tuple(dict.fromkeys(texts))`
unfoldable pub distinct_texts : List String → List String
distinct_texts [] = []
distinct_texts (s ∷ rest) = s ∷ keep (λ t. not (s == t)) (distinct_texts rest)

-- `sorted(set(names) - allowed)` is empty.
abbrev pub all_in : List String → List String → Bool
all_in allowed names = all (contains allowed) names

-- A citation: a text with more than white space, of at most 200 characters.
abbrev pub citation : Json → Option String
citation (str s) = if has_text s && leb (text_length s) 200 then some s else none
citation _ = none

abbrev pub citation_texts : List Json → Option (List String)
citation_texts [] = some []
citation_texts (v ∷ vs) = elim (citation v) [
  | none ↦ none
  | some s ↦ elim (citation_texts vs) [ none ↦ none | some rest ↦ some (s ∷ rest) ]
]

abbrev pub unique_texts : List String → Option (List String)
unique_texts texts = if all_unique texts then some texts else none

-- A unique array of at most `MAX_CITATION_IDS` = 100 citations.
unfoldable pub citation_list : Json → Option (List String)
citation_list (arr xs) =
    if leb (length (elements xs)) 100
    then elim (citation_texts (elements xs)) [ none ↦ none | some texts ↦ unique_texts texts ]
    else none
citation_list _ = none

abbrev pub or_unbound : Option (List String) → String → Bound (List String)
or_unbound none code = unbound code false
or_unbound (some texts) code = bound texts

-- `_strict_source_ids`
unfoldable pub strict_source_ids : Dict Json → Bound (List String)
strict_source_ids arguments = elim (lookup "source_ids" arguments) [
  | none ↦ bound []
  | some value ↦ or_unbound (citation_list value) "invalid_source_ids"
]

-- `_raw_source_ids`
abbrev pub raw_source_ids : Dict Json → Json
raw_source_ids arguments = elim (lookup "source_ids" arguments) [
  | none ↦ arr nil
  | some value ↦ only_list value
]
  where
    only_list : Json → Json
    only_list (arr xs) = arr xs
    only_list _ = arr nil

abbrev pub both : Option (List String) → Option (List String) → Option (List String)
both none rest = none
both (some a) none = none
both (some a) (some b) = some (a ++ b)

-- `visit` of `_cited_source_ids`: what it finds, `none` where it raises.
unfoldable mutual
  pub cited : Json → Option (List String)
  cited (obj fs) = cited_fields fs
  cited (arr xs) = cited_items xs
  cited _ = some []

  pub cited_items : Items → Option (List String)
  cited_items nil = some []
  cited_items (cons x xs) = both (cited x) (cited_items xs)

  pub cited_fields : Fields → Option (List String)
  cited_fields end = some []
  cited_fields (field key child fs) =
      let here = citation_list child in
      let below = cited child in
      both (if key == "source_ids" || key == "evidence_ids" then here else below) (cited_fields fs)

-- `_cited_source_ids`
unfoldable pub cited_source_ids : Json → Bound (List String)
unfolding cited
cited_source_ids value = do
  found ← or_unbound (cited value) "invalid_citations"
  demand (leb (length found) 100) "invalid_citations"
  bound (distinct_texts found)
