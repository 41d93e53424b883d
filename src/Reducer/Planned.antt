-- ===== src/Reducer/Planned.antt =====
-- What `_planned_tasks` accepts: fresh tasks, each under its own id, with known dependencies.
use alpha_orchestration.Prelude.{
  ◌≡◌, refl, subst, String, Bool, true, false, some, List, [], ◌∷◌, all, arith, eq_iff, contains,
  length,
}
use alpha_orchestration.Prelude.Dict.{Dict, lookup, insert, has_key, keys, values, lookup-insert}
use alpha_orchestration.Result.{
  Result, ok, guard, ◌>>=◌, ◌>>◌, >>=-eq-ok, guard-eq-ok, state_invariant,
}
use alpha_orchestration.Json.{Json}
use alpha_orchestration.Domain.Enums.{TaskStatus}
use alpha_orchestration.Domain.State.{TaskState}
use alpha_orchestration.Reducer.Payload.{require, as_list}
use alpha_orchestration.Reducer.Plan.{
  read_task, plan_task, plan_from, planned_tasks, dependencies_known, names, drain, nonempty_list,
  check_plan,
}
use alpha_orchestration.Reducer.Wiring.{IsWired}

-- Each task stands under its own id and has not started; the values list the keys in order.
pub record IsFresh (tasks : Dict TaskState) : Type 0 where
  pub keyed : (k : String) (t : TaskState) → lookup k tasks ≡ some t → t.task_id ≡ k
  pub queued : (k : String) (t : TaskState) → lookup k tasks ≡ some t → t.status ≡ TaskStatus.queued
  pub named : names (values tasks) ≡ keys tasks

read_task-fresh :
    (tasks : Dict TaskState) (raw : Json) (t : TaskState)
    → read_task tasks raw ≡ ok t
    → (t.status ≡ TaskStatus.queued) × (has_key t.task_id tasks ≡ false)
unfolding read_task
read_task-fresh tasks raw t h = ground arith

names-insert :
    (id : String) (t : TaskState) (tasks : Dict TaskState)
    → has_key id tasks ≡ false
    → t.task_id ≡ id
    → names (values tasks) ≡ keys tasks
    → names (values (insert id t tasks)) ≡ keys (insert id t tasks)
unfolding insert lookup
names-insert id t [] h e n = ground arith
names-insert id t ((j, u) ∷ tasks) h e n = ground (arith, names-insert id t tasks)

plan_task-IsFresh :
    (tasks more : Dict TaskState) (raw : Json)
    → IsFresh tasks
    → plan_task tasks raw ≡ ok more
    → IsFresh more
unfolding plan_task
plan_task-IsFresh tasks more raw f h =
    let (t, read, done) = >>=-eq-ok (read_task tasks raw) (λ u. ok (insert u.task_id u tasks)) h in
    let (queued, absent) = read_task-fresh tasks raw t read in
    subst IsFresh {x = insert t.task_id t tasks} (ground arith) (record {
      keyed = λ k u at.
          ground (arith, lookup-insert t.task_id k t tasks, eq_iff t.task_id k, f.keyed k u);
      queued = λ k u at. ground (arith, lookup-insert t.task_id k t tasks, f.queued k u);
      named = names-insert t.task_id t tasks absent refl f.named;
    })

plan_from-IsFresh :
    (tasks more : Dict TaskState) (raws : List Json)
    → IsFresh tasks
    → plan_from tasks raws ≡ ok more
    → IsFresh more
unfolding plan_from
plan_from-IsFresh tasks more [] f h = subst IsFresh {x = tasks} (ground arith) f
plan_from-IsFresh tasks more (raw ∷ raws) f h =
    let (next, one, rest) = >>=-eq-ok (plan_task tasks raw) (λ m. plan_from m raws) h in
    plan_from-IsFresh next more raws (plan_task-IsFresh tasks next raw f one) rest

planned_tasks-parts :
    (payload : Dict Json) (tasks : Dict TaskState)
    → planned_tasks payload ≡ ok tasks
    → (raws : List Json) × (more : Dict TaskState) × (plan_from [] raws ≡ ok more)
      × (check_plan more ≡ ok tasks)
unfolding planned_tasks
planned_tasks-parts payload tasks h =
    let (v, read, rest) = >>=-eq-ok (require payload "tasks") listed h in
    let (raws, list, rest') = >>=-eq-ok (as_list v) checked rest in
    let (some_tasks, rest'') =
      guard-eq-ok (nonempty_list raws) state_invariant (plan_from [] raws >>= check_plan) rest' in
    let (more, plan, done) = >>=-eq-ok (plan_from [] raws) check_plan rest'' in
    (raws, more, plan, done)
  where
    checked : List Json → Result (Dict TaskState)
    checked raws = guard (nonempty_list raws) state_invariant >> (plan_from [] raws >>= check_plan)

    listed : Json → Result (Dict TaskState)
    listed v = as_list v >>= checked

pub check_plan-parts :
    (more tasks : Dict TaskState)
    → check_plan more ≡ ok tasks
    → (more ≡ tasks)
      × (dependencies_known more ≡ true)
      × (drain (length (values more)) (values more) ≡ ok tt)
unfolding check_plan
check_plan-parts more tasks h =
    let (known, rest) = guard-eq-ok (dependencies_known more) state_invariant drained h in
    let (u, dry, done) =
      >>=-eq-ok (drain (length (values more)) (values more)) (λ _. ok more) rest in
    (ground arith, known, dry)
  where
    drained : Result (Dict TaskState)
    drained = drain (length (values more)) (values more) >> ok more

nothing-IsFresh : IsFresh []
unfolding lookup
nothing-IsFresh = record { keyed = λ k t h. cc; queued = λ k t h. cc; named = refl }

-- The parts of a successful plan.
pub planned_tasks-inverts :
    (payload : Dict Json) (tasks : Dict TaskState)
    → planned_tasks payload ≡ ok tasks
    → IsFresh tasks
      × (dependencies_known tasks ≡ true)
      × (drain (length (values tasks)) (values tasks) ≡ ok tt)
planned_tasks-inverts payload tasks h =
    let (raws, more, plan, done) = planned_tasks-parts payload tasks h in
    let (same, known, dry) = check_plan-parts more tasks done in
    (
      subst IsFresh same (plan_from-IsFresh [] more raws nothing-IsFresh plan),
      rw same at known,
      rw same at dry,
    )

-- Every value that a key finds satisfies what all values satisfy.
pub all-values :
    (p : TaskState → Bool) (k : String) (t : TaskState) (tasks : Dict TaskState)
    → all p (values tasks) ≡ true
    → lookup k tasks ≡ some t
    → p t ≡ true
unfolding lookup
all-values p k t [] h e = cc
all-values p k t ((j, u) ∷ tasks) h e = ground (arith, all-values p k t tasks)

has_key-contains :
    (d : String) (tasks : Dict TaskState) → contains (keys tasks) d ≡ true → has_key d tasks ≡ true
unfolding lookup
has_key-contains d [] h = cc
has_key-contains d ((j, u) ∷ tasks) h = ground (arith, has_key-contains d tasks)

all-has_key :
    (tasks : Dict TaskState) (ds : List String)
    → all (contains (keys tasks)) ds ≡ true
    → all (λ d. has_key d tasks) ds ≡ true
all-has_key tasks [] h = refl
all-has_key tasks (d ∷ ds) h = ground (arith, has_key-contains d tasks, all-has_key tasks ds)

-- A new plan is wired: no task of it has started.
pub planned_tasks-IsWired :
    (payload : Dict Json) (tasks : Dict TaskState)
    → planned_tasks payload ≡ ok tasks
    → IsWired tasks
planned_tasks-IsWired payload tasks h =
    let (fresh, known, dry) = planned_tasks-inverts payload tasks h in
    record {
      keyed = fresh.keyed;
      known = λ k t at.
          all-has_key tasks t.depends_on
            (all-values (λ u. all (contains (keys tasks)) u.depends_on) k t tasks known at);
      met = λ k t at started. absurd (ground (arith, fresh.queued k t at));
    }
