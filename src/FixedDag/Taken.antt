-- ===== src/FixedDag/Taken.antt =====
-- fixed_dag.py, controller.py and reducer.py together: the reducer takes the drafts of a worker in a
-- run that holds its task.
use alpha_orchestration.Prelude.{
  ◌≡◌, refl, subst, ◌∙◌, ℕ, true, false, some, List, [], ◌∷◌, arith, All, ◌==◌, eq_iff,
}
use alpha_orchestration.Prelude.Int.{pos, next_ℤ, eqb_ℤ-refl}
use alpha_orchestration.Prelude.Dict.{Dict, lookup, insert, has_key, lookup-insert}
use alpha_orchestration.Prelude.Text.{strip}
use alpha_orchestration.Result.{Result, ok, ◌>>=◌, >>=-eq-ok}
use alpha_orchestration.Json.Python.{Python}
use alpha_orchestration.Domain.Enums.{EventKind, task_started}
use alpha_orchestration.Domain.Candidate.{has_text}
use alpha_orchestration.Domain.Event.{RunEvent}
use alpha_orchestration.Domain.State.{RunState, TaskState, terminal}
use alpha_orchestration.Reducer.Payload.{nonempty_string, require}
use alpha_orchestration.Reducer.Tasks.{update_task, find_task, task_event, touch_agent}
use alpha_orchestration.Reducer.Lifecycle.{update_task-plan}
use alpha_orchestration.Reducer.Step.{reduce_event, dispatch, advance, accepts}
use alpha_orchestration.Controller.{EventDraft}
use alpha_orchestration.Dag.{TaskDefinition, is_name}
use alpha_orchestration.FixedDag.Own.{IsOwn, is_worker_kind}
use alpha_orchestration.FixedDag.Tracking.{event_of, update, follow}

module _ (py : Python) (now : ℕ) where
  -- The event that `_publish` makes of a draft.
  abbrev pub stamp : RunState → EventDraft → RunEvent
  stamp s draft = record {
    schema_version = pos 1;
    run_id = s.spec.run_id;
    sequence = next_ℤ s.last_sequence;
    kind = draft.kind;
    timestamp = now;
    message = draft.message;
    agent_id = draft.agent_id;
    payload = draft.payload;
  }

  -- The reducer on the drafts, one after the other.
  unfoldable pub take_drafts : RunState → List EventDraft → Result RunState
  take_drafts s [] = ok s
  take_drafts s (draft ∷ rest) = reduce_event py s (stamp s draft) >>= λ t. take_drafts t rest

  module _ (task : TaskDefinition) where
    -- The run is going on and holds the state of the task.
    pub record Runs (s : RunState) (t : TaskState) : Type 0 where
      pub going_on : terminal s ≡ false
      pub held : lookup task.task_id s.tasks ≡ some t
      pub same_id : t.task_id ≡ task.task_id
      pub same_agent : t.agent_id ≡ task.agent_id

    find_task-Runs :
        (s : RunState) (t : TaskState) (draft : EventDraft)
        → is_name 200 task.task_id ≡ true
        → Runs s t
        → IsOwn task draft
        → find_task (advance s (stamp s draft)) (stamp s draft) ≡ ok t
    unfolding find_task nonempty_string require
    find_task-Runs s t draft named p (agent, id, kind) =
        let stays : task.task_id ≡ strip task.task_id =
          ground (arith, eq_iff task.task_id (strip task.task_id)) in
        let filled : has_text task.task_id ≡ true = rw (← stays) (ground arith) in
        let owned : (task.agent_id == t.agent_id) ≡ true =
          ground (arith, eq_iff task.agent_id t.agent_id, p.same_agent) in
        rw (id, filled, ← stays, p.held, agent, owned) refl

    same_update :
        (s : RunState) (t : TaskState) (draft : EventDraft) (one two : Dict TaskState)
        (kind : EventKind)
        → is_worker_kind kind ≡ true
        → update_task py (stamp s draft) one kind t ≡ update_task py (event_of draft) two kind t
    unfolding update_task
    same_update s t draft one two task_started h = absurd cc
    same_update s t draft one two kind h = refl

    dispatch_worker :
        (event : RunEvent) (s : RunState) (kind : EventKind)
        → is_worker_kind kind ≡ true
        → has_key "task_id" event.payload ≡ true
        → dispatch py event kind s ≡ task_event py event kind s
    unfolding dispatch
    dispatch_worker event s kind h k = ground arith

    accepts-stamp :
        (s : RunState) (draft : EventDraft) → terminal s ≡ false → accepts s (stamp s draft) ≡ true
    accepts-stamp s draft h =
        rw (h, eqb_ℤ-refl (next_ℤ s.last_sequence))
          (ground (arith, eq_iff s.spec.run_id s.spec.run_id))

    -- What the reducer makes of one draft.
    abbrev taken : RunState → TaskState → TaskState → EventDraft → RunState
    taken s t u draft = record (advance s (stamp s draft)) {
      tasks = insert t.task_id u s.tasks;
      agents = touch_agent py (stamp s draft) draft.kind t.agent_id s.agents;
    }

    reduce_event-taken :
        (tasks : Dict TaskState) (s : RunState) (t u : TaskState) (draft : EventDraft)
        → is_name 200 task.task_id ≡ true
        → Runs s t
        → IsOwn task draft
        → update py tasks draft t ≡ ok u
        → reduce_event py s (stamp s draft) ≡ ok (taken s t u draft)
    unfolding reduce_event task_event
    reduce_event-taken tasks s t u draft named p own h =
        let (agent, id, kind) = own in
        let has : has_key "task_id" draft.payload ≡ true = rw (id, has_key) refl in
        let same = same_update s t draft s.tasks tasks draft.kind kind in
        rw
          (
            accepts-stamp s draft p.going_on,
            dispatch_worker (stamp s draft) (advance s (stamp s draft)) draft.kind kind has,
            find_task-Runs s t draft named p own,
            same,
            h,
          )
          refl

    taken-Runs :
        (tasks : Dict TaskState) (s : RunState) (t u : TaskState) (draft : EventDraft)
        → Runs s t
        → update py tasks draft t ≡ ok u
        → Runs (taken s t u draft) u
    taken-Runs tasks s t u draft p h =
        let plan = update_task-plan py (event_of draft) tasks draft.kind t u h in
        record {
          going_on = p.going_on;
          held =
              let q = lookup-insert t.task_id task.task_id u s.tasks in
              ground (arith, eq_iff t.task_id task.task_id, p.same_id);
          same_id = plan.task_id ∙ p.same_id;
          same_agent = plan.agent_id ∙ p.same_agent;
        }

    -- The reducer takes in a run what it takes of the task alone.
    pub take_drafts-follow :
        (tasks : Dict TaskState) (s : RunState) (t u : TaskState) (drafts : List EventDraft)
        → is_name 200 task.task_id ≡ true
        → Runs s t
        → All (IsOwn task) drafts
        → follow py tasks t drafts ≡ ok u
        → (final : RunState) × (take_drafts s drafts ≡ ok final) × Runs final u
    unfolding take_drafts follow
    take_drafts-follow tasks s t u [] named p own h = (s, refl, subst (Runs s) (ground arith) p)
    take_drafts-follow tasks s t u (draft ∷ rest) named p (first, own) h =
        let (v, here, later) =
          >>=-eq-ok (update py tasks draft t) (λ m. follow py tasks m rest) h in
        let step = reduce_event-taken tasks s t v draft named p first here in
        let (final, all_taken, q) =
          take_drafts-follow tasks (taken s t v draft) v u rest named
            (taken-Runs tasks s t v draft p here) own later in
        (final, rw step all_taken, q)
