-- ===== src/Dag/Policy.antt =====
-- The limits that every accepted `TaskDefinition` keeps.
use alpha_orchestration.Prelude.{
  ◌≡◌, ◌⊎◌, ℕ, ◌≤◌, ◌<◌, ◌||◌, not, Bool, true, false, arith, Bool-cases, inl, inr, ltb, leb, eqb,
  length, all_unique, all, contains,
}
use alpha_orchestration.Dag.{
  valid, DagErrorCode, TaskArguments, TaskDefinition, is_name, validate_name, as_flag, string_tuple,
  bounded_int, read_schema, make_task,
}
use alpha_orchestration.Dag.Readers.{
  Ensures-valid, Ensures-bind, Ensures-insist, validate_name-IsName, bounded_int-within,
  string_tuple-length, IsOutputSchema, read_schema-IsOutputSchema,
}

-- The names of a task: at most 200 characters each, no dependency on itself, and no repetition.
abbrev pub IsNamed : TaskDefinition → Type 0
IsNamed t =
    (is_name 200 t.task_id ≡ true)
    × (is_name 200 t.agent_id ≡ true)
    × (is_name 200 t.prompt_key ≡ true)
    × (all (is_name 200) t.depends_on ≡ true)
    × (all (is_name 200) t.allowed_tools ≡ true)
    × (contains t.depends_on t.task_id ≡ false)
    × (all_unique t.depends_on ≡ true)
    × (all_unique t.allowed_tools ≡ true)
    × (length t.depends_on ≤ 64)
    × (length t.allowed_tools ≤ 32)

-- The budgets of a task.
abbrev pub IsBudgeted : TaskDefinition → Type 0
IsBudgeted t =
    ((1 ≤ t.max_turns) × (t.max_turns ≤ 16))
    × (t.max_tool_calls ≤ 64)
    × ((1 ≤ t.max_calls_per_turn) × (t.max_calls_per_turn ≤ 8))
    × ((1 ≤ t.max_new_tokens) × (t.max_new_tokens ≤ 4096))
    × ((128 ≤ t.max_action_bytes) × (t.max_action_bytes ≤ 262144))
    × (t.repair_budget ≤ 1)
    × ((t.max_tool_calls ≡ 0) ⊎ (t.max_calls_per_turn ≤ t.max_tool_calls))
    × ((length t.allowed_tools ≡ 0) ⊎ (0 < t.max_tool_calls))

abbrev pub IsWithinPolicy : TaskDefinition → Type 0
IsWithinPolicy t = IsNamed t × IsBudgeted t × IsOutputSchema t.output_schema

zero_or : (n : ℕ) (b : Bool) (P : Type 0) → (b ≡ true → P) → (eqb n 0 || b) ≡ true → (n ≡ 0) ⊎ P
zero_or n b P f h = elim (Bool-cases b) [ inl e ↦ inr (f e) | inr e ↦ inl (ground arith) ]

-- Every task that the constructor accepts keeps the policy: its names are non-empty, unpadded and
-- short, it does not depend on itself, its dependencies and tools are unique and few, each budget
-- is within its limits and the budgets fit together, and its output schema passes `validate_schema`
-- and has the type "object".
pub make_task-IsWithinPolicy :
    (a : TaskArguments) (t : TaskDefinition) → make_task a ≡ valid t → IsWithinPolicy t
unfolding make_task
make_task-IsWithinPolicy a t =
    (Ensures-bind {P = IsWithinPolicy} (validate_name 200 a.task_id) _ λ task_id e1.
        Ensures-bind (validate_name 200 a.agent_id) _ λ agent_id e2.
          Ensures-bind (validate_name 200 a.prompt_key) _ λ prompt_key e3.
            Ensures-bind (as_flag a.required) _ λ required e4.
              Ensures-bind (as_flag a.allow_failed_dependencies) _ λ allowed e5.
                Ensures-bind (string_tuple 64 a.depends_on) _ λ depends_on e6.
                  Ensures-bind (string_tuple 32 a.allowed_tools) _ λ allowed_tools e7.
                    Ensures-insist (not (contains depends_on task_id)) DagErrorCode.dependency_cycle
                      _
                      λ g1.
                        Ensures-insist (all (is_name 200) depends_on) DagErrorCode.invalid_field _
                          λ g2.
                            Ensures-insist (all (is_name 200) allowed_tools)
                              DagErrorCode.invalid_field _
                              λ g3.
                                Ensures-insist (all_unique depends_on) DagErrorCode.invalid_field _
                                  λ g4.
                                    Ensures-insist (all_unique allowed_tools)
                                      DagErrorCode.invalid_field _
                                      λ g5.
                                        Ensures-bind (bounded_int 1 16 a.max_turns) _
                                          λ max_turns e8.
                                            Ensures-bind (bounded_int 0 64 a.max_tool_calls) _
                                              λ max_tool_calls e9.
                                                Ensures-bind (bounded_int 1 8 a.max_calls_per_turn)
                                                  _
                                                  λ max_calls_per_turn e10.
                                                    Ensures-bind
                                                      (bounded_int 1 4096 a.max_new_tokens) _
                                                      λ max_new_tokens e11.
                                                        Ensures-bind
                                                          (bounded_int 128 262144
                                                            a.max_action_bytes)
                                                          _
                                                          λ max_action_bytes e12.
                                                            Ensures-bind
                                                            (bounded_int 0 1 a.repair_budget) _
                                                            λ repair_budget e13.
                                                            Ensures-insist
                                                            (eqb max_tool_calls 0
                                                            || leb max_calls_per_turn
                                                            max_tool_calls)
                                                            DagErrorCode.invalid_field _
                                                            λ g6.
                                                            Ensures-insist
                                                            (eqb (length allowed_tools) 0
                                                            || ltb 0 max_tool_calls)
                                                            DagErrorCode.invalid_field _
                                                            λ g7.
                                                            Ensures-bind
                                                            (read_schema a.output_schema) _
                                                            λ output_schema e14. Ensures-valid _ (
                                                            (
                                                            validate_name-IsName 200 a.task_id
                                                            task_id e1,
                                                            validate_name-IsName 200 a.agent_id
                                                            agent_id e2,
                                                            validate_name-IsName 200 a.prompt_key
                                                            prompt_key e3,
                                                            g2,
                                                            g3,
                                                            not_true (contains depends_on task_id)
                                                            g1,
                                                            g4,
                                                            g5,
                                                            string_tuple-length 64 a.depends_on
                                                            depends_on e6,
                                                            string_tuple-length 32 a.allowed_tools
                                                            allowed_tools e7,
                                                            ),
                                                            (
                                                            bounded_int-within 1 16 a.max_turns
                                                            max_turns e8,
                                                            (bounded_int-within 0 64
                                                            a.max_tool_calls max_tool_calls e9).1,
                                                            bounded_int-within 1 8
                                                            a.max_calls_per_turn max_calls_per_turn
                                                            e10,
                                                            bounded_int-within 1 4096
                                                            a.max_new_tokens max_new_tokens e11,
                                                            bounded_int-within 128 262144
                                                            a.max_action_bytes max_action_bytes e12,
                                                            (bounded_int-within 0 1 a.repair_budget
                                                            repair_budget e13).1,
                                                            zero_or max_tool_calls _ _
                                                            (λ h. ground arith) g6,
                                                            zero_or (length allowed_tools) _ _
                                                            (λ h. ground arith) g7,
                                                            ),
                                                            read_schema-IsOutputSchema
                                                            a.output_schema output_schema e14,
                                                            )).at
      t
  where
    not_true : (b : Bool) → not b ≡ true → b ≡ false
    not_true b h = ground arith
