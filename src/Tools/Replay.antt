-- ===== src/Tools/Replay.antt =====
-- tools/registry.py: the cache of the registry.
use alpha_orchestration.Prelude.{
  ◌≡◌, refl, subst, if◌then◌else◌, ◌∷◌, String, [], List, none, some, Option, arith, ◌==◌, eq_iff,
  Bool-cases, inl, inr,
}
use alpha_orchestration.Prelude.Dict.{lookup, lookup-insert}
use alpha_orchestration.Result.{Result, ok, err}
use alpha_orchestration.FixedDag.{Surroundings}
use alpha_orchestration.FixedDag.Records.{ToolCall, ToolResult}
use alpha_orchestration.Tools.{
  ToolRegistry, call_fingerprint, execute_once, execute_cached, execute, remember, failure,
}

abbrev conflict : ToolCall → Result ToolResult
conflict call =
    ok (failure call "call_id_conflict" "call_id was already used with different tool arguments" [])

module _ (around : Surroundings) where
  remember-replays :
      (r s : ToolRegistry) (call : ToolCall) (result : ToolResult) (made : Result ToolResult)
      → remember around r call made ≡ (ok result, s)
      → lookup call.call_id s.cache ≡ some (call_fingerprint around call, result)
  remember-replays r s call result (err e) h = absurd cc
  remember-replays r s call result (ok made) h = ground (
    arith,
    lookup-insert call.call_id call.call_id (call_fingerprint around call, made) r.cache,
    eq_iff call.call_id call.call_id,
  )

  -- A call whose entry is in the cache gets its result, and nothing changes.
  cached_result :
      (s : ToolRegistry) (call : ToolCall) (result : ToolResult)
      → lookup call.call_id s.cache ≡ some (call_fingerprint around call, result)
      → execute around s call ≡ (ok result, s)
  unfolding execute execute_cached
  cached_result s call result q =
      let fingerprint = call_fingerprint around call in
      rw q (ground (arith, eq_iff fingerprint fingerprint))

  cached-replays :
      (r s : ToolRegistry) (call : ToolCall) (result : ToolResult)
      (found : Option (String × ToolResult))
      → lookup call.call_id r.cache ≡ found
      → execute_cached around r call found ≡ (ok result, s)
      → execute around s call ≡ (ok result, s)
  unfolding execute_cached execute
  cached-replays r s call result none q h =
      cached_result s call result (remember-replays r s call result (execute_once around r call) h)
  cached-replays r s call result (some (prior, old)) q h =
      elim (Bool-cases (prior == call_fingerprint around call)) [
        | inl e ↦
            let same : (ok old, r) ≡ (ok result, s) = ground arith in
            subst (λ p. execute around (p.1) call ≡ p) same (rw (q, e) refl)
        | inr e ↦
            let same : (conflict call, r) ≡ (ok result, s) = ground arith in
            subst (λ p. execute around (p.1) call ≡ p) same (rw (q, e) refl)
      ]

  -- A call that returned is repeated with the same result, and the repetition changes nothing: it is
  -- answered without another run of the tool, or refused again as a conflict.
  pub execute-repeats :
      (r : ToolRegistry) (call : ToolCall) (result : ToolResult) (s : ToolRegistry)
      → execute around r call ≡ (ok result, s)
      → execute around s call ≡ (ok result, s)
  unfolding execute
  execute-repeats r call result s h =
      cached-replays r s call result (lookup call.call_id r.cache) refl h

  cached-keeps :
      (r : ToolRegistry) (call : ToolCall) (id : String) (entry : String × ToolResult)
      (found : Option (String × ToolResult))
      → lookup call.call_id r.cache ≡ found
      → lookup id r.cache ≡ some entry
      → lookup id ((execute_cached around r call found).1.cache) ≡ some entry
  unfolding execute_cached
  cached-keeps r call id entry (some (prior, old)) q h =
      elim (Bool-cases (prior == call_fingerprint around call)) [ inl e ↦ rw e h | inr e ↦ rw e h ]
  cached-keeps r call id entry none q h = remembered (execute_once around r call)
    where
      remembered :
          (made : Result ToolResult)
          → lookup id ((remember around r call made).1.cache) ≡ some entry
      remembered (err e) = h
      remembered (ok made) = ground (
        arith,
        eq_iff call.call_id id,
        lookup-insert call.call_id id (call_fingerprint around call, made) r.cache,
      )

  -- What the cache holds for a call identifier is never changed by a later call.
  pub execute-keeps :
      (r : ToolRegistry) (call : ToolCall) (id : String) (entry : String × ToolResult)
      → lookup id r.cache ≡ some entry
      → lookup id ((execute around r call).1.cache) ≡ some entry
  unfolding execute
  execute-keeps r call id entry h =
      cached-keeps r call id entry (lookup call.call_id r.cache) refl h

  -- The registry after a list of calls.
  abbrev pub after : ToolRegistry → List ToolCall → ToolRegistry
  after r [] = r
  after r (call ∷ rest) = after ((execute around r call).1) rest

  -- What a call gets that finds this entry.
  abbrev answer : ToolCall → String × ToolResult → Result ToolResult
  answer call (prior, old) = if prior == call_fingerprint around call then ok old else conflict call
