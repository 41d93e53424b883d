-- ===== src/FixedDag/Working.antt =====
-- fixed_dag.py: what holds of a worker between two statements of `_stream_task`: its budgets, its
-- sources, and the task that the reducer makes of what it has yielded.
use alpha_orchestration.Prelude.{
  All, ◌≡◌, refl, ℕ, suc, ◌+◌, ◌≤◌, String, Bool, true, false, not, some, List, [], ◌∷◌, ◌++◌,
  arith, Bool-cases, inl, inr, all, keep, contains, ◌==◌,
}
use alpha_orchestration.Prelude.Dict.{Dict}
use alpha_orchestration.Result.{ok}
use alpha_orchestration.Json.{Json}
use alpha_orchestration.Domain.Enums.{TaskStatus}
use alpha_orchestration.Domain.State.{TaskState}
use alpha_orchestration.Reducer.Tasks.{is_terminal, is_success}
use alpha_orchestration.FixedDag.{Surroundings, bound}
use alpha_orchestration.FixedDag.Sources.{distinct_texts, all_in, cited_source_ids}
use alpha_orchestration.Schema.Validate.{validate_json}
use alpha_orchestration.FixedDag.Records.{TaskOutcome, object}
use alpha_orchestration.FixedDag.Drafts.{draft_rejected, draft_failed, repair_message}
use alpha_orchestration.FixedDag.Worker.{
  Assignment, Worker, Step, next, stopped, crashed, emit, recall, fail, can_repair, refuse, accept,
  completed, draft_completed, no_texts,
}
use alpha_orchestration.FixedDag.Own.{
  IsOwn, All-snoc, failed-IsOwn, rejected-IsOwn, completed-IsOwn,
}
use alpha_orchestration.FixedDag.Tracking.{
  follow, follow-snoc, update-rejected, update-failed, update-completed,
}

module _ (P : String → Bool) where
  all-append : (xs ys : List String) → all P xs ≡ true → all P ys ≡ true → all P (xs ++ ys) ≡ true
  all-append [] ys h k = k
  all-append (x ∷ xs) ys h k = ground (arith, all-append xs ys)

  all-keep : (q : String → Bool) (xs : List String) → all P xs ≡ true → all P (keep q xs) ≡ true
  all-keep q [] h = refl
  all-keep q (x ∷ xs) h = ground (arith, all-keep q xs)

  pub all-distinct_texts : (xs : List String) → all P xs ≡ true → all P (distinct_texts xs) ≡ true
  unfolding distinct_texts
  all-distinct_texts [] h = refl
  all-distinct_texts (x ∷ xs) h =
      let tail : all P xs ≡ true = ground arith in
      let rest = all-keep (λ t. not (x == t)) (distinct_texts xs) (all-distinct_texts xs tail) in
      ground arith

  pub all-merged :
      (xs ys : List String)
      → all P xs ≡ true
      → all P ys ≡ true
      → all P (distinct_texts (xs ++ ys)) ≡ true
  all-merged xs ys h k = all-distinct_texts (xs ++ ys) (all-append xs ys h k)

module _ (around : Surroundings) (a : Assignment) where
  -- The output has passed the task's schema, and cites only allowed sources.
  pub record IsDelivered (outcome : TaskOutcome) : Type 0 where
    pub payload : Dict Json
    pub output : outcome.output ≡ object payload
    pub conforms : validate_json around.repr (object payload) (object a.task.output_schema) ≡ ok tt
    pub cited : List String
    pub found : cited_source_ids (object payload) ≡ bound cited
    pub allowed : all_in a.allowed_sources cited ≡ true

module _ (around : Surroundings) (a : Assignment) (tasks : Dict TaskState) (start : TaskState) where
  -- The budgets and the sources; `room` is the number of tool calls that are still to come.
  pub record IsWithin (turns room : ℕ) (w : Worker) : Type 0 where
    pub repairs : w.repairs_used ≤ a.task.repair_budget
    pub turns_taken : w.outcome.turns ≡ turns
    pub calls : w.outcome.tool_calls + room ≤ a.task.max_tool_calls
    pub sources : all_in a.allowed_sources w.outcome.source_ids ≡ true

  -- The reducer has taken everything that was yielded, and holds this task.
  pub record Holds (status : TaskStatus) (turns calls : ℕ) (w : Worker) : Type 0 where
    pub task : TaskState
    pub followed : follow around.py tasks start w.emitted ≡ ok task
    pub has_status : task.status ≡ status
    pub same_turns : task.turns ≡ turns
    pub same_calls : task.tool_calls ≡ calls
    pub own : All (IsOwn a.task) w.emitted

  pub record IsAt (status : TaskStatus) (turns room : ℕ) (w : Worker) : Type 0 where
    pub within : IsWithin turns room w
    pub holds : Holds status turns w.outcome.tool_calls w

  -- Neither the model nor a tool is waited for.
  abbrev pub IsWorking : ℕ → ℕ → Worker → Type 0
  IsWorking = IsAt TaskStatus.running

  -- The worker has returned.
  pub record IsSettled (turns : ℕ) (w : Worker) : Type 0 where
    pub within : IsWithin turns 0 w
    pub holds : Holds w.outcome.status turns w.outcome.tool_calls w
    pub same_error : holds.task.error ≡ w.outcome.error
    pub settled : is_terminal w.outcome.status ≡ true
    pub delivered : is_success w.outcome.status ≡ true → IsDelivered around a w.outcome

  -- An exception has left the generator.
  pub record IsBroken (w : Worker) : Type 0 where
    pub task : TaskState
    pub followed : follow around.py tasks start w.emitted ≡ ok task
    pub own : All (IsOwn a.task) w.emitted

  -- How a turn may end.
  abbrev pub Ends : ℕ → Step → Type 0
  Ends turns (next w) = IsWorking turns 0 w
  Ends turns (stopped w) = IsSettled turns w
  Ends turns (crashed e w) = IsBroken w

  pub fail-IsSettled :
      (turns room : ℕ) (code message : String) (w : Worker)
      → IsWorking turns room w
      → IsSettled turns (fail around a code message w)
  unfolding fail
  fail-IsSettled turns room code message w p =
      let outcome = record w.outcome { status = TaskStatus.failed; error = some message } in
      record {
        within = record {
          repairs = p.within.repairs;
          turns_taken = p.within.turns_taken;
          calls = omega (arith, p.within.calls);
          sources = p.within.sources;
        };
        holds = record {
          task = record p.holds.task { status = TaskStatus.failed; error = some message };
          followed =
              follow-snoc around.py tasks start p.holds.task _ w.emitted
                (draft_failed a.task outcome code message) p.holds.followed
                (update-failed around.py tasks a.task turns p.holds.task outcome code message
                  p.holds.has_status);
          has_status = refl;
          same_turns = p.holds.same_turns;
          same_calls = p.holds.same_calls;
          own =
              All-snoc (IsOwn a.task) w.emitted _ p.holds.own
                (failed-IsOwn a.task turns outcome code message);
        };
        same_error = refl;
        settled = refl;
        delivered = λ q. absurd cc;
      }

  -- After the draft action_rejected, with any count of repairs within the budget.
  rejected-IsWorking :
      (turns room used : ℕ) (turn : ℕ) (code message : String) (output : Json) (repair : Bool)
      (remaining : ℕ) (w : Worker)
      → used ≤ a.task.repair_budget
      → IsWorking turns room w
      → IsWorking turns 0 (
          emit
            (draft_rejected a.task turn code message output repair remaining)
            (record w { repairs_used = used }))
  rejected-IsWorking turns room used turn code message output repair remaining w enough p = record {
    within = record {
      repairs = enough;
      turns_taken = p.within.turns_taken;
      calls = omega (arith, p.within.calls);
      sources = p.within.sources;
    };
    holds = record {
      task = record p.holds.task { output = output; error = some message };
      followed =
          follow-snoc around.py tasks start p.holds.task _ w.emitted
            (draft_rejected a.task turn code message output repair remaining) p.holds.followed
            (update-rejected around.py tasks a.task turn p.holds.task code message output repair
              remaining p.holds.has_status);
      has_status = p.holds.has_status;
      same_turns = p.holds.same_turns;
      same_calls = p.holds.same_calls;
      own =
          All-snoc (IsOwn a.task) w.emitted _ p.holds.own
            (rejected-IsOwn a.task turn code message output repair remaining);
    };
  }

  pub recall-IsWorking :
      (turns room : ℕ) (message : Json) (w : Worker)
      → IsWorking turns room w
      → IsWorking turns room (recall message w)
  recall-IsWorking turns room message w p = record {
    within = record {
      repairs = p.within.repairs;
      turns_taken = p.within.turns_taken;
      calls = p.within.calls;
      sources = p.within.sources;
    };
    holds = record {
      task = p.holds.task;
      followed = p.holds.followed;
      has_status = p.holds.has_status;
      same_turns = p.holds.same_turns;
      same_calls = p.holds.same_calls;
      own = p.holds.own;
    };
  }

  repair_room :
      (turn : ℕ) (repairable : Bool) (w : Worker)
      → can_repair around a turn repairable w ≡ true
      → suc w.repairs_used ≤ a.task.repair_budget
  repair_room turn repairable w h = ground arith

  pub refuse-Ends :
      (turns room turn : ℕ) (code message : String) (output : Json) (repairable : Bool) (w : Worker)
      → IsWorking turns room w
      → Ends turns (refuse around a turn code message output repairable w)
  unfolding refuse
  refuse-Ends turns room turn code message output repairable w p =
      elim (Bool-cases (can_repair around a turn repairable w)) [
        | inl e ↦ rw e (
            recall-IsWorking turns 0 (repair_message code message _) _ (
              rejected-IsWorking turns room (suc w.repairs_used) turn code message output true _ w
                (repair_room turn repairable w e) p))
        | inr e ↦ rw e (
            fail-IsSettled turns 0 code message _ (
              rejected-IsWorking turns room w.repairs_used turn code message output false _ w
                p.within.repairs p))
      ]

  pub accept-IsSettled :
      (turns room : ℕ) (output : Dict Json) (cited : List String) (w : Worker)
      → IsWorking turns room w
      → validate_json around.repr (object output) (object a.task.output_schema) ≡ ok tt
      → cited_source_ids (object output) ≡ bound cited
      → all_in a.allowed_sources cited ≡ true
      → IsSettled turns (accept around a output cited w)
  unfolding accept
  accept-IsSettled turns room output cited w p valid found known =
      let done = completed around a output cited w.outcome in
      record {
        within = record {
          repairs = p.within.repairs;
          turns_taken = p.within.turns_taken;
          calls = omega (arith, p.within.calls);
          sources =
              all-merged (contains a.allowed_sources) w.outcome.source_ids cited p.within.sources
                known;
        };
        holds = record {
          task = record p.holds.task {
            status = done.status;
            output = done.output;
            error = done.error;
          };
          followed =
              follow-snoc around.py tasks start p.holds.task _ w.emitted
                (draft_completed around a done output cited) p.holds.followed
                (update-completed around.py tasks around a p.holds.task w.outcome output cited
                  p.holds.has_status);
          has_status = refl;
          same_turns = p.holds.same_turns;
          same_calls = p.holds.same_calls;
          own =
              All-snoc (IsOwn a.task) w.emitted _ p.holds.own
                (completed-IsOwn around a done output cited);
        };
        same_error = refl;
        settled = elim (Bool-cases (no_texts a.degraded_ancestry)) [
          | inl e ↦ rw e refl
          | inr e ↦ rw e refl
        ];
        delivered = λ q. record {
          payload = output;
          output = refl;
          conforms = valid;
          cited = cited;
          found = found;
          allowed = known;
        };
      }
