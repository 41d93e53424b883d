-- ===== src/Tools/Valid.antt =====
-- tools/registry.py against fixed_dag.py: a result of a scoped executor passes the checks of the worker.
use Prim.Native.String.{◌++◌ as ◌+++◌}
use alpha_orchestration.Prelude.{
  ◌≡◌, refl, subst, ℕ, String, true, false, not, none, some, Option, List, [], ◌∷◌, arith, eq_iff,
  Bool-cases, inl, inr, all, keep, contains, leb,
}
use alpha_orchestration.Prelude.Dict.{Dict, lookup}
use alpha_orchestration.Result.{overflow_error, Result, ok, err, value_error}
use alpha_orchestration.Json.{Json, bool, str, arr}
use alpha_orchestration.Json.Equality.{json_eq}
use alpha_orchestration.Journal.Verifier.{all_finite}
use alpha_orchestration.Dag.{texts}
use alpha_orchestration.FixedDag.{Surroundings}
use alpha_orchestration.FixedDag.Sources.{distinct_texts, all_in}
use alpha_orchestration.FixedDag.Records.{ToolCall, ToolResult, object}
use alpha_orchestration.FixedDag.Preflight.{validate_tool_result}
use alpha_orchestration.Domain.Candidate.{has_text}
use alpha_orchestration.Tools.{
  registered_names, Refusal, schema_refusal, value_refusal, arithmetic_refusal, other_refusal,
  Handled, handled, handler_raised, ToolDefinition, ToolRegistry, failure, source_ids, sorted_texts,
  place_text, of_refusal, bounded_result, take_handled, run_handler, checked_call, execute_defined,
  execute_once, execute_cached, execute, remember,
}
use alpha_orchestration.Tools.Scope.{
  ScopedToolExecutor, unknown_sources, outside, execute_within, scoped_execute,
}

texts_finite : (ns : List String) → all_finite (texts ns) ≡ true
unfolding all_finite
texts_finite [] = refl
texts_finite (n ∷ ns) = texts_finite ns

listed_finite :
    (key : String) (ns : List String) → all_finite (object ((key, texts ns) ∷ [])) ≡ true
unfolding all_finite
listed_finite key ns = rw (texts_finite ns) refl

place_full : (s : String) (ts : List String) → place_text s ts ≡ [] → true ≡ false
place_full s [] h = absurd cc
place_full s (t ∷ ts) h = ground arith

sorted_full : (ts : List String) → sorted_texts ts ≡ [] → ts ≡ []
sorted_full [] h = refl
sorted_full (t ∷ ts) h = let full = place_full t (sorted_texts ts) h in absurd (ground arith)

distinct_full : (ts : List String) → distinct_texts ts ≡ [] → ts ≡ []
unfolding distinct_texts
distinct_full [] h = refl
distinct_full (t ∷ ts) h = absurd cc

none_outside :
    (allowed ts : List String)
    → keep (λ s. not (contains allowed s)) ts ≡ []
    → all (contains allowed) ts ≡ true
none_outside allowed [] h = refl
none_outside allowed (t ∷ ts) h = elim (Bool-cases (contains allowed t)) [
  | inl e ↦ let rest = none_outside allowed ts (ground arith) in ground arith
  | inr e ↦ absurd (ground arith)
]

module _ (around : Surroundings) (call : ToolCall) (allowed : List String) where
  failure_valid :
      (code message : String) (details : Dict Json)
      → all_finite (object details) ≡ true
      → validate_tool_result call (failure call code message details) allowed ≡ true
  unfolding validate_tool_result failure all_finite json_eq lookup
  failure_valid code message [] h = ground (arith, eq_iff call.call_id call.call_id)
  failure_valid code message (d ∷ ds) h = ground (arith, eq_iff call.call_id call.call_id)

  -- Whatever comes back passes the worker's checks.
  abbrev IsValid : Result ToolResult → Type 0
  IsValid m =
      (result : ToolResult) → m ≡ ok result → validate_tool_result call result allowed ≡ true

  failed-IsValid :
      (code message : String) (details : Dict Json)
      → all_finite (object details) ≡ true
      → IsValid (ok (failure call code message details))
  failed-IsValid code message details h result q =
      let same : failure call code message details ≡ result = cc in
      subst (λ r. validate_tool_result call r allowed ≡ true) same
        (failure_valid code message details h)

  of_refusal-IsValid :
      (refusal : Refusal) (text : String) → IsValid (of_refusal around call refusal text)
  unfolding of_refusal all_finite
  of_refusal-IsValid schema_refusal text = failed-IsValid _ text _ refl
  of_refusal-IsValid value_refusal text = failed-IsValid _ text _ refl
  of_refusal-IsValid arithmetic_refusal text = failed-IsValid _ text _ refl
  of_refusal-IsValid other_refusal text = λ result q. absurd cc

  abbrev content_payload : Dict Json → Dict Json
  content_payload content =
      ("ok", bool true) ∷ ("tool", str call.name) ∷ ("data", object content) ∷ []

  abbrev success : List String → Dict Json → ToolResult
  success sources content = record {
    call_id = call.call_id;
    payload = content_payload content;
    source_ids = sources;
    retryable = false;
  }

  success_valid :
      (sources : List String) (content : Dict Json)
      → all_in allowed sources ≡ true
      → all_finite (object (content_payload content)) ≡ true
      → validate_tool_result call (success sources content) allowed ≡ true
  unfolding validate_tool_result json_eq lookup
  success_valid sources content known finite = ground (arith, eq_iff call.call_id call.call_id)

  succeeded-IsValid :
      (sources : List String) (content : Dict Json)
      → all_in allowed sources ≡ true
      → all_finite (object (content_payload content)) ≡ true
      → IsValid (ok (success sources content))
  succeeded-IsValid sources content known finite result q =
      let same : success sources content ≡ result = cc in
      subst (λ r. validate_tool_result call r allowed ≡ true) same
        (success_valid sources content known finite)

  nothing_finite : all_finite (object []) ≡ true
  unfolding all_finite
  nothing_finite = refl

  bounded_result-IsValid :
      (limit : ℕ) (sources : List String) (content : Dict Json)
      → all_in allowed sources ≡ true
      → IsValid (bounded_result around limit call sources content)
  unfolding bounded_result
  bounded_result-IsValid limit sources content known =
      let payload = object (content_payload content) in
      elim (Bool-cases (all_finite payload)) [
        | inr e ↦ rw e (of_refusal-IsValid value_refusal (around.wording "not_strict_json"))
        | inl e ↦ elim (Bool-cases (leb (around.canonical_size payload) limit)) [
          | inr m ↦ rw (e, m) (failed-IsValid _ _ [] nothing_finite)
          | inl m ↦ rw (e, m) (succeeded-IsValid sources content known e)
        ]
      ]

  run_handler-IsValid :
      (limit : ℕ) (definition : ToolDefinition) (sources : Option (List String))
      → ((names : List String) → sources ≡ some names → all_in allowed names ≡ true)
      → IsValid (run_handler around limit definition call sources)
  unfolding run_handler
  run_handler-IsValid limit definition none known =
      of_refusal-IsValid value_refusal "source_ids must be an array of strings"
  run_handler-IsValid limit definition (some names) known = taken (definition.handler _)
    where
      taken : (reply : Handled) → IsValid (take_handled around limit call names reply)
      taken (handled content) = bounded_result-IsValid limit names content (known names refl)
      taken (handler_raised refusal text) = of_refusal-IsValid refusal text

  checked_call-IsValid :
      (limit : ℕ) (definition : ToolDefinition) (checked : Result (Unit {0}))
      → ((names : List String)
          → source_ids (lookup "source_ids" call.arguments) ≡ some names
          → all_in allowed names ≡ true)
      → IsValid (checked_call around limit definition call checked)
  unfolding checked_call
  checked_call-IsValid limit definition (err value_error) known =
      of_refusal-IsValid schema_refusal (around.wording "invalid_schema")
  checked_call-IsValid limit definition (err overflow_error) known =
      of_refusal-IsValid arithmetic_refusal (around.wording "calculation_error")
  checked_call-IsValid limit definition (err e) known = λ result q. absurd cc
  checked_call-IsValid limit definition (ok u) known = run_handler-IsValid limit definition _ known

  execute_once-IsValid :
      (r : ToolRegistry)
      → ((names : List String)
          → source_ids (lookup "source_ids" call.arguments) ≡ some names
          → all_in allowed names ≡ true)
      → IsValid (execute_once around r call)
  unfolding execute_once execute_defined
  execute_once-IsValid r known = elim (Bool-cases (has_text call.call_id)) [
    | inr e ↦ rw e (failed-IsValid _ _ [] nothing_finite)
    | inl e ↦ rw e (defined (lookup call.name r.definitions))
  ]
    where
      defined : (found : Option ToolDefinition) → IsValid (execute_defined around r call found)
      defined none = failed-IsValid _ _ _ (listed_finite "allowed_tools" (registered_names r))
      defined (some definition) = checked_call-IsValid r.max_result_bytes definition _ known

  remembered-IsValid :
      (r : ToolRegistry) (made : Result ToolResult)
      → IsValid made
      → IsValid ((remember around r call made).0)
  remembered-IsValid r (ok result) valid = valid
  remembered-IsValid r (err e) valid = valid

  execute_within-IsValid :
      (r : ToolRegistry) (unknown : List String)
      → lookup call.call_id r.cache ≡ none
      → ((names : List String)
          → unknown ≡ []
          → source_ids (lookup "source_ids" call.arguments) ≡ some names
          → all_in allowed names ≡ true)
      → IsValid ((execute_within around r call unknown).0)
  unfolding execute_within execute execute_cached
  execute_within-IsValid r [] fresh known = rw fresh (
      remembered-IsValid r (execute_once around r call)
        (execute_once-IsValid r (λ names q. known names refl q)))
  execute_within-IsValid r (s ∷ rest) fresh known =
      failed-IsValid _ _ _ (listed_finite "unknown_source_ids" (s ∷ rest))

  none_unknown :
      (sources : Option Json) (names : List String)
      → unknown_sources allowed sources ≡ []
      → source_ids sources ≡ some names
      → all_in allowed names ≡ true
  unfolding unknown_sources source_ids
  none_unknown none names h q = ground arith
  none_unknown (some (arr xs)) names h q =
      let listed : sorted_texts (distinct_texts (keep (λ s. not (contains allowed s)) names)) ≡ [] =
        subst
          (λ m.
            elim m [
              | none ↦ []
              | some ns ↦ sorted_texts (distinct_texts (keep (λ s. not (contains allowed s)) ns))
            ]
            ≡ [])
          q h in
      none_outside allowed names (distinct_full _ (sorted_full _ listed))
  none_unknown (some v) names h q = absurd cc

  -- When a registry has cached nothing under the identifier of a call, what its scoped executor
  -- returns for the call, with a list of allowed sources, passes the worker's `_validate_tool_result`
  -- for that list: the call's identifier, only allowed sources, a Boolean ok field and finite numbers.
  pub scoped_execute-IsValid :
      (scope : ScopedToolExecutor) (r : ToolRegistry) (result : ToolResult)
      → scope.allowed_source_ids ≡ some allowed
      → lookup call.call_id r.cache ≡ none
      → (scoped_execute around scope r call).0 ≡ ok result
      → validate_tool_result call result allowed ≡ true
  unfolding scoped_execute
  scoped_execute-IsValid scope r result scoped fresh h =
      elim (Bool-cases (contains scope.names call.name)) [
        | inl e ↦
            within (outside scope.allowed_source_ids call) result
              (λ names empty q.
                none_unknown (lookup "source_ids" call.arguments) names (ground arith) q)
              (ground arith)
        | inr e ↦
            failed-IsValid "tool_not_allowed" ("tool is not allowed in this scope: " +++ call.name)
              (("allowed_tools", texts scope.names) ∷ [])
              (listed_finite "allowed_tools" scope.names) result (ground arith)
      ]
    where
      within :
          (unknown : List String) (result : ToolResult)
          → ((names : List String)
              → unknown ≡ []
              → source_ids (lookup "source_ids" call.arguments) ≡ some names
              → all_in allowed names ≡ true)
          → (execute_within around r call unknown).0 ≡ ok result
          → validate_tool_result call result allowed ≡ true
      within unknown result known q = execute_within-IsValid r unknown fresh known result q
