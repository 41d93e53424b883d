-- ===== src/Actions/Accepted.antt =====
-- What `parse_action` returns is within the limits, and is what the text literally says.
use alpha_orchestration.Prelude.{
  ◌≡◌, refl, sym, ap, subst, ◌∙◌, ℕ, suc, ◌≤◌, String, true, false, Option, none, some, List, [],
  ◌∷◌, ◌==◌, eq_iff, arith, Bool-cases, leb, ltb, length, inl, inr,
}
use alpha_orchestration.Prelude.Dict.{Dict, lookup}
use alpha_orchestration.Json.{Json, str, arr, Items, elements}
use alpha_orchestration.Journal.Verifier.{all_finite}
use alpha_orchestration.Actions.{
  read, ◌>>=◌, insist, ProposedToolCall, AgentAction, tool_calls_action, final_action, Decoder,
  Loaded, loaded, failed, duplicate, non_finite, not_one_value, kind_of, require_object,
  require_exact_keys, item, text, is_tool_name, parse_call, parse_calls, parse_tool_calls,
  of_loaded, parse_envelope, size_of, positive, parse_action, unique_object, action_too_large,
  tool_call_limit, invalid_envelope,
}
use alpha_orchestration.Actions.Keys.{unique_keys, IsHooked, Decodes-unique}
use alpha_orchestration.Actions.Says.{
  SaysCall, SaysCalls, no_calls, calls_with, SaysIn, Says, read-inverts, read-injective,
  insist-holds, item-inverts, text-inverts, require_object-inverts, require_exact_keys-HasOnly,
  is_tool_name-IsName,
}

-- The text fits the limit, and writes one JSON value without a repeated key or a number that is not
-- finite, at any level, which says the action.
pub record IsAllowed (decoder : Decoder) (literal : String → Option Json) (max_bytes max_calls : ℕ)
    (raw : String) (action : AgentAction) : Type 0 where
  pub size : ℕ
  pub sized : decoder.encoded_size raw ≡ some size
  pub fits : size ≤ max_bytes
  pub value : Json
  pub written : literal raw ≡ some value
  pub unique : unique_keys value ≡ true
  pub is_finite : all_finite value ≡ true
  pub says : Says max_calls value action

parse_call-says : (v : Json) (c : ProposedToolCall) → parse_call v ≡ read c → SaysCall v c
unfolding parse_call
parse_call-says v c h =
    let (call, e0, h0) = read-inverts (require_object v) _ h in
    let (done, e1, h1) = read-inverts (require_exact_keys call ("name" ∷ "arguments" ∷ [])) _ h0 in
    let (raw_name, e2, h2) = read-inverts (item "name" call) _ h1 in
    let (name, e3, h3) = read-inverts (text raw_name) _ h2 in
    let (good, e4, h4) = read-inverts (insist (is_tool_name name) invalid_envelope true) _ h3 in
    let (raw_arguments, e5, h5) = read-inverts (item "arguments" call) _ h4 in
    let (arguments, e6, h6) = read-inverts (require_object raw_arguments) _ h5 in
    subst (SaysCall v) (read-injective _ c h6) (
      call,
      (require_object-inverts v call e0).0,
      require_exact_keys-HasOnly "name" "arguments" call done e1,
      item-inverts "name" call raw_name e2 ∙ ap some (text-inverts raw_name name e3),
      item-inverts "arguments" call raw_arguments e5
          ∙ ap some (require_object-inverts raw_arguments arguments e6).0,
      is_tool_name-IsName name (insist-holds _ invalid_envelope true good e4),
    )

parse_calls-says :
    (vs : List Json) (cs : List ProposedToolCall)
    → parse_calls vs ≡ read cs
    → (length cs ≡ length vs) × SaysCalls vs cs
unfolding parse_calls
parse_calls-says [] cs h =
    subst (λ ds. (length ds ≡ 0) × SaysCalls [] ds) (read-injective [] cs h) (refl, no_calls)
parse_calls-says (v ∷ vs) cs h =
    let (call, e0, h0) = read-inverts (parse_call v) _ h in
    let (calls, e1, h1) = read-inverts (parse_calls vs) _ h0 in
    let (n, rest) = parse_calls-says vs calls e1 in
    subst (λ ds. (length ds ≡ suc (length vs)) × SaysCalls (v ∷ vs) ds)
      (read-injective (call ∷ calls) cs h1) (ap suc n, calls_with (parse_call-says v call e0) rest)

-- A batch of calls: how many, and what they say.
abbrev IsBatch : ℕ → Json → AgentAction → Type 0
IsBatch max_calls v action =
    (calls : List ProposedToolCall) × (tool_calls_action calls ≡ action)
    × (1 ≤ length calls)
    × (length calls ≤ max_calls)
    × ((xs : Items) × (v ≡ arr xs) × SaysCalls (elements xs) calls)

parse_tool_calls-IsBatch :
    (max_calls : ℕ) (v : Json) (a : AgentAction)
    → parse_tool_calls max_calls v ≡ read a
    → IsBatch max_calls v a
unfolding parse_tool_calls
parse_tool_calls-IsBatch max_calls (arr xs) a h =
    let (one, e0, h0) =
      read-inverts (insist (ltb 0 (length (elements xs))) invalid_envelope true) _ h in
    let (few, e1, h1) =
      read-inverts (insist (leb (length (elements xs)) max_calls) tool_call_limit false) _ h0 in
    let (calls, e2, h2) = read-inverts (parse_calls (elements xs)) _ h1 in
    let (n, said) = parse_calls-says (elements xs) calls e2 in
    let some_call = insist-holds _ invalid_envelope true one e0 in
    let few_calls = insist-holds _ tool_call_limit false few e1 in
    (calls, read-injective _ a h2, ground arith, ground arith, (xs, refl, said))
parse_tool_calls-IsBatch max_calls _ a h = absurd cc

of_loaded-inverts : (l : Loaded) (v : Json) → of_loaded l ≡ read v → l ≡ loaded v
of_loaded-inverts (loaded w) v h = ap loaded (read-injective w v h)
of_loaded-inverts (failed (duplicate k)) v h = absurd cc
of_loaded-inverts (failed non_finite) v h = absurd cc
of_loaded-inverts (failed not_one_value) v h = absurd cc

size_of-inverts : (o : Option ℕ) (n : ℕ) → size_of o ≡ read n → o ≡ some n
size_of-inverts none n h = absurd cc
size_of-inverts (some m) n h = ap some (read-injective m n h)

kind_of-inverts :
    (o : Option Json) (v : Json) (s : String) → kind_of o ≡ read v → v ≡ str s → o ≡ some (str s)
kind_of-inverts none v s h q = absurd cc
kind_of-inverts (some w) v s h q = ap some (read-injective w v h ∙ q)

parse_envelope-says :
    (max_calls : ℕ) (m : Dict Json) (kind : String) (a : AgentAction)
    → lookup "kind" m ≡ some (str kind)
    → parse_envelope max_calls m kind ≡ read a
    → SaysIn max_calls m a
unfolding parse_envelope
parse_envelope-says max_calls m kind a at h = elim (Bool-cases (kind == "tool_calls")) [
  | inl e ↦
      let (keyed, e0, h0) =
        read-inverts (require_exact_keys m ("kind" ∷ "calls" ∷ [])) _ (rw e at h) in
      let (v, e1, h1) = read-inverts (item "calls" m) _ h0 in
      let (calls, q, one, few, (xs, is_array, said)) = parse_tool_calls-IsBatch max_calls v a h1 in
      let named : kind ≡ "tool_calls" = ground (arith, eq_iff kind "tool_calls") in
      subst (SaysIn max_calls m) q (
        require_exact_keys-HasOnly "kind" "calls" m keyed e0,
        at ∙ ap (λ k. some (str k)) named,
        one,
        few,
        (xs, item-inverts "calls" m v e1 ∙ ap some is_array, said),
      )
  | inr e ↦ elim (Bool-cases (kind == "final")) [
    | inl g ↦
        let (keyed, e0, h0) =
          read-inverts (require_exact_keys m ("kind" ∷ "payload" ∷ [])) _ (rw (e, g) at h) in
        let (payload, e1, h1) = read-inverts (item "payload" m >>= require_object) _ h0 in
        let (v, e2, h2) = read-inverts (item "payload" m) _ e1 in
        let named : kind ≡ "final" = ground (arith, eq_iff kind "final") in
        subst (SaysIn max_calls m) (read-injective (final_action payload) a h1) (
          require_exact_keys-HasOnly "kind" "payload" m keyed e0,
          at ∙ ap (λ k. some (str k)) named,
          item-inverts "payload" m v e2 ∙ ap some (require_object-inverts v payload h2).0,
        )
    | inr g ↦ absurd (ground arith)
  ]
]

-- What `parse_action` returns is what its text literally says, provided that `json.loads` makes its
-- result of the text's value by the hook. The text has at most `max_bytes` bytes. Its value repeats
-- no key in any object at any level, holds only finite numbers, and has only the keys of its kind: a
-- final action has the value's payload; a batch has between one and `max_calls` calls, which are
-- those of the value one for one, each with a tool name that is non-empty, unpadded and at most 200
-- characters.
pub parse_action-IsAllowed :
    (decoder : Decoder) (literal : String → Option Json) (max_bytes max_calls : ℕ) (raw : String)
    (action : AgentAction)
    → IsHooked decoder literal
    → parse_action decoder max_bytes max_calls (str raw) ≡ read action
    → IsAllowed decoder literal max_bytes max_calls raw action
unfolding parse_action
parse_action-IsAllowed decoder literal max_bytes max_calls raw action hooked h =
    let (a, ea, ha) = read-inverts (positive max_bytes) _ h in
    let (b, eb, hb) = read-inverts (positive max_calls) _ ha in
    let (size, e0, h0) = read-inverts (size_of (decoder.encoded_size raw)) _ hb in
    let (fits, e1, h1) = read-inverts (insist (leb size max_bytes) action_too_large false) _ h0 in
    let (v, e2, h2) = read-inverts (of_loaded (decoder.loads unique_object raw)) _ h1 in
    let (envelope, e3, h3) = read-inverts (require_object v) _ h2 in
    let (any_kind, e4, h4) = read-inverts (kind_of (lookup "kind" envelope)) _ h3 in
    let (kind, e5, h5) = read-inverts (text any_kind) _ h4 in
    let (t, written, decoded) = hooked.decodes unique_object raw v (of_loaded-inverts _ v e2) in
    let (same, unique) = Decodes-unique t v decoded in
    let (is_object, finite) = require_object-inverts v envelope e3 in
    let within = insist-holds _ action_too_large false fits e1 in
    let at = kind_of-inverts _ any_kind kind e4 (text-inverts any_kind kind e5) in
    record {
      size = size;
      sized = size_of-inverts _ size e0;
      fits = ground arith;
      value = t;
      written = written;
      unique = unique;
      is_finite = sym (ap all_finite same) ∙ finite;
      says = (
        envelope,
        sym same ∙ is_object,
        parse_envelope-says max_calls envelope kind action at h5,
      );
    }
