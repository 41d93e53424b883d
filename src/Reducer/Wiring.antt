-- ===== src/Reducer/Wiring.antt =====
-- The tasks of a run are wired: each stands under its own id, its dependencies are tasks of the run,
-- and those of a task that has started had reached a status that let it start.
use alpha_orchestration.Prelude.{
  ◌≡◌, refl, sym, subst, String, true, false, some, List, [], ◌∷◌, all, arith, eq_iff, inl, inr,
  ◌⊎◌,
}
use alpha_orchestration.Prelude.Dict.{
  Dict, lookup, insert, has_key, lookup-insert, lookup-insert_cases,
}
use alpha_orchestration.Domain.State.{TaskState}
use alpha_orchestration.Reducer.Tasks.{is_terminal}
use alpha_orchestration.Reducer.Lifecycle.{
  ◌⟶◌, edge-not_terminal, is_started, dependency_met, SamePlan,
}

pub record IsWired (tasks : Dict TaskState) : Type 0 where
  pub keyed : (k : String) (t : TaskState) → lookup k tasks ≡ some t → t.task_id ≡ k
  pub known :
      (k : String) (t : TaskState)
      → lookup k tasks ≡ some t
      → all (λ d. has_key d tasks) t.depends_on ≡ true
  pub met :
      (k : String) (t : TaskState)
      → lookup k tasks ≡ some t
      → is_started t.status ≡ true
      → all (dependency_met tasks t) t.depends_on ≡ true

module _ (tasks : Dict TaskState) (id : String) (old new : TaskState)
    (at : lookup id tasks ≡ some old) where
  has_key-insert : (d : String) → has_key d tasks ≡ true → has_key d (insert id new tasks) ≡ true
  has_key-insert d h = ground (arith, lookup-insert id d new tasks, eq_iff id d)

  all-has_key-insert :
      (ds : List String)
      → all (λ d. has_key d tasks) ds ≡ true
      → all (λ d. has_key d (insert id new tasks)) ds ≡ true
  all-has_key-insert [] h = refl
  all-has_key-insert (d ∷ ds) h = ground (arith, has_key-insert d, all-has_key-insert ds)

  module _ (busy : is_terminal old.status ≡ false) (t : TaskState) where
    met-insert :
        (d : String)
        → dependency_met tasks t d ≡ true
        → dependency_met (insert id new tasks) t d ≡ true
    met-insert d h = ground (arith, lookup-insert id d new tasks, eq_iff id d)

    all-met-insert :
        (ds : List String)
        → all (dependency_met tasks t) ds ≡ true
        → all (dependency_met (insert id new tasks) t) ds ≡ true
    all-met-insert [] h = refl
    all-met-insert (d ∷ ds) h = ground (arith, met-insert d, all-met-insert ds)

module _ (tasks : Dict TaskState) (old new : TaskState) (plan : SamePlan old new) where
  all-met-SamePlan :
      (ds : List String)
      → all (dependency_met tasks old) ds ≡ true
      → all (dependency_met tasks new) ds ≡ true
  all-met-SamePlan [] h = refl
  all-met-SamePlan (d ∷ ds) h = ground (arith, all-met-SamePlan ds)

  met-SamePlan :
      all (dependency_met tasks old) old.depends_on ≡ true
      → all (dependency_met tasks new) new.depends_on ≡ true
  met-SamePlan h =
      subst (λ ds. all (dependency_met tasks new) ds ≡ true) (sym plan.depends_on)
        (all-met-SamePlan old.depends_on h)

-- Moving one task along the diagram keeps the wiring.
pub insert-IsWired :
    (tasks : Dict TaskState) (id : String) (old new : TaskState)
    → IsWired tasks
    → lookup id tasks ≡ some old
    → SamePlan old new
    → old.status ⟶ new.status
    → (is_started new.status ≡ true
        → (is_started old.status ≡ true) ⊎ (all (dependency_met tasks old) old.depends_on ≡ true))
    → IsWired (insert id new tasks)
insert-IsWired tasks id old new w at plan edge starts = record {
  keyed = λ k t h. elim (lookup-insert_cases id k new t tasks h) [
    | inl (e, f) ↦ ground (arith, w.keyed id old at)
    | inr other ↦ w.keyed k t other
  ];
  known = λ k t h. elim (lookup-insert_cases id k new t tasks h) [
    | inl (e, f) ↦ rw f (
        subst (λ ds. all (λ d. has_key d (insert id new tasks)) ds ≡ true) (sym plan.depends_on)
          (all-has_key-insert tasks id old new at old.depends_on (w.known id old at)))
    | inr other ↦ all-has_key-insert tasks id old new at _ (w.known k t other)
  ];
  met = λ k t h s. elim (lookup-insert_cases id k new t tasks h) [
    | inl (e, f) ↦ rw f (
        all-met-insert tasks id old new at (edge-not_terminal edge) new new.depends_on
          (own (rw f at s)))
    | inr other ↦
        all-met-insert tasks id old new at (edge-not_terminal edge) t _ (w.met k t other s)
  ];
}
  where
    own : is_started new.status ≡ true → all (dependency_met tasks new) new.depends_on ≡ true
    own s =
        met-SamePlan tasks old new plan
          (elim (starts s) [ inl before ↦ w.met id old at before | inr now ↦ now ])
