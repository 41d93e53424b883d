-- ===== src/Reducer/Acyclic.antt =====
-- The loop `while pending` of `_planned_tasks` accepts exactly the acyclic dependency graphs.
use mathlib.Core.List.{Memᴰ}
use alpha_orchestration.Prelude.{
  ap, ◌∙◌, ◌⊎◌, ℕ, zero, suc, ◌+◌, ◌≤◌, ◌<◌, ◌≡◌, refl, sym, String, Bool, true, false, not, ◌↔◌,
  List, [], ◌∷◌, all, keep, arith, if◌then◌else◌, eq_iff, ◌==◌, Bool-cases, inl, inr, contains,
  length,
}
use alpha_orchestration.Result.{Error, ok, err, state_invariant}
use alpha_orchestration.Domain.State.{TaskState}
use alpha_orchestration.Reducer.Plan.{
  names, is_ready, waiting, ready, drain, check_plan, dependencies_known,
}
use alpha_orchestration.Reducer.Planned.{check_plan-parts}
use alpha_orchestration.Prelude.Dict.{Dict, values}

-- `rank` puts every dependency that is in the list below its task.
pub record IsRanked (rank : String → ℕ) (ts : List TaskState) : Type 0 where
  pub below :
      (t : TaskState) (d : String)
      → Memᴰ t ts
      → contains t.depends_on d ≡ true
      → contains (names ts) d ≡ true
      → rank d < rank t.task_id

-- No cycle: some ranking exists.
pub record IsAcyclic (ts : List TaskState) : Type 0 where
  pub rank : String → ℕ
  pub ranked : IsRanked rank ts

contains-names :
    (t : TaskState) (ts : List TaskState) → Memᴰ t ts → contains (names ts) t.task_id ≡ true
contains-names t [] (m) = elim m [ ]
contains-names t (u ∷ ts) (Memᴰ.head e) = ground (arith, eq_iff u.task_id t.task_id)
contains-names t (u ∷ ts) (Memᴰ.tail m) = ground (arith, contains-names t ts m)

named_task :
    (d : String) (ts : List TaskState)
    → contains (names ts) d ≡ true
    → (t : TaskState) × Memᴰ t ts × (t.task_id ≡ d)
named_task d [] h = absurd (ground arith)
named_task d (u ∷ ts) h = elim (Bool-cases (u.task_id == d)) [
  | inl e ↦ (u, Memᴰ.head refl, (eq_iff u.task_id d).0 e)
  | inr e ↦ let (t, m, n) = named_task d ts (ground arith) in (t, Memᴰ.tail m, n)
]

module _ (p : TaskState → Bool) where
  mem-keep : (t : TaskState) (ts : List TaskState) → Memᴰ t ts → p t ≡ true → Memᴰ t (keep p ts)
  mem-keep t [] m h = elim m [ ]
  mem-keep t (u ∷ ts) (Memᴰ.head e) h = rw (← e) (rw h (Memᴰ.head refl))
  mem-keep t (u ∷ ts) (Memᴰ.tail m) h = elim (Bool-cases (p u)) [
    | inl e ↦ rw e (Memᴰ.tail (mem-keep t ts m h))
    | inr e ↦ rw e (mem-keep t ts m h)
  ]

  tail_mem :
      {t u : TaskState} {xs ys : List TaskState}
      → (Memᴰ t xs → Memᴰ t ys)
      → Memᴰ t (u ∷ xs)
      → Memᴰ t (u ∷ ys)
  tail_mem f (Memᴰ.head e) = Memᴰ.head e
  tail_mem f (Memᴰ.tail m) = Memᴰ.tail (f m)

  keep-mem : (t : TaskState) (ts : List TaskState) → Memᴰ t (keep p ts) → Memᴰ t ts
  keep-mem t [] m = elim m [ ]
  keep-mem t (u ∷ ts) m = elim (Bool-cases (p u)) [
    | inl e ↦ tail_mem (keep-mem t ts) (rw e at m)
    | inr e ↦ Memᴰ.tail (keep-mem t ts (rw e at m))
  ]

  length-keep-not :
      (ts : List TaskState) → length (keep p ts) + length (keep (λ t. not (p t)) ts) ≡ length ts
  length-keep-not [] = omega arith
  length-keep-not (t ∷ ts) = ground (arith, length-keep-not ts)

-- A ready task has no dependency among the pending ones, and a task with none is ready.
ready-free :
    (pending ds : List String) (d : String)
    → all (λ e. not (contains pending e)) ds ≡ true
    → contains ds d ≡ true
    → contains pending d ≡ false
ready-free pending [] d h c = cc
ready-free pending (e ∷ ds) d h c = ground (arith, eq_iff e d, ready-free pending ds d)

not_ready-waits :
    (pending ds : List String)
    → all (λ e. not (contains pending e)) ds ≡ false
    → (d : String) × (contains ds d ≡ true) × (contains pending d ≡ true)
not_ready-waits pending [] h = absurd (ground arith)
not_ready-waits pending (e ∷ ds) h = elim (Bool-cases (contains pending e)) [
  | inl c ↦ (e, ground (arith, eq_iff e e), c)
  | inr c ↦ let (d, m, w) = not_ready-waits pending ds (ground arith) in (d, ground arith, w)
]

-- The number of rounds that a task waits.
rounds : ℕ → List TaskState → String → ℕ
rounds zero ts d = 0
rounds (suc fuel) ts d =
    let later = rounds fuel (waiting ts) d in
    if contains (names (waiting ts)) d then suc later else 0

drain-step :
    (fuel : ℕ) (t : TaskState) (ts : List TaskState)
    → drain (suc fuel) (t ∷ ts) ≡ ok tt
    → drain fuel (waiting (t ∷ ts)) ≡ ok tt
unfolding drain
drain-step fuel t ts h = ground arith

rounds-lt :
    (fuel : ℕ) (ts : List TaskState) (t : TaskState) (d : String)
    → contains (names (waiting ts)) t.task_id ≡ true
    → (contains (names (waiting ts)) d ≡ true
        → rounds fuel (waiting ts) d < rounds fuel (waiting ts) t.task_id)
    → rounds (suc fuel) ts d < rounds (suc fuel) ts t.task_id
unfolding rounds
rounds-lt fuel ts t d now later = elim (Bool-cases (contains (names (waiting ts)) d)) [
  | inl e ↦ rw (now, e) (omega (arith, later e))
  | inr e ↦ rw (now, e) (omega arith)
]

drain-rounds :
    (fuel : ℕ) (ts : List TaskState) → drain fuel ts ≡ ok tt → IsRanked (rounds fuel ts) ts
drain-rounds fuel [] h = record { below = λ t d m c n. elim m [ ] }
drain-rounds zero (u ∷ ts) h = absurd (unfold drain in ground arith)
drain-rounds (suc fuel) (u ∷ ts) h =
    let later = drain-rounds fuel (waiting (u ∷ ts)) (drain-step fuel u ts h) in
    record {
      below = λ t d m c n. elim (Bool-cases (is_ready (names (u ∷ ts)) t)) [
        | inl free ↦ absurd (ground (arith, ready-free (names (u ∷ ts)) t.depends_on d))
        | inr waits ↦
            let left =
              mem-keep (λ v. not (is_ready (names (u ∷ ts)) v)) t (u ∷ ts) m (ground arith) in
            rounds-lt fuel (u ∷ ts) t d (contains-names t (waiting (u ∷ ts)) left)
              (later.below t d left c)
      ];
    }

-- Below every rank some pending task is ready.
descent :
    (rank : String → ℕ) (ts : List TaskState)
    → IsRanked rank ts
    → ready ts ≡ []
    → (n : ℕ) (t : TaskState) → Memᴰ t ts
    → ¬ (rank t.task_id < n)
descent rank ts r idle zero t m h = omega arith
descent rank ts r idle (suc n) t m h = elim (Bool-cases (is_ready (names ts) t)) [
  | inl free ↦ not_nil (ready ts) t (mem-keep (is_ready (names ts)) t ts m free) idle
  | inr waits ↦
      let (d, c, w) = not_ready-waits (names ts) t.depends_on waits in
      let (u, mu, named) = named_task d ts w in
      descent rank ts r idle n u mu (omega (arith, rw (← named) at (r.below t d m c w)))
]
  where
    not_nil : (xs : List TaskState) (x : TaskState) → Memᴰ x xs → ¬ (xs ≡ [])
    not_nil [] x mx e = elim mx [ ]
    not_nil (y ∷ xs) x mx e = cc

IsRanked-keep :
    (p : TaskState → Bool) (rank : String → ℕ) (ts : List TaskState)
    → IsRanked rank ts
    → IsRanked rank (keep p ts)
IsRanked-keep p rank ts r = record {
  below = λ t d m c n.
      let (u, mu, named) = named_task d (keep p ts) n in
      r.below t d (keep-mem p t ts m) c (rw (← named) (contains-names u ts (keep-mem p u ts mu)));
}

length-waiting :
    (ts rs : List TaskState) (r : TaskState) → ready ts ≡ r ∷ rs → length (waiting ts) < length ts
length-waiting ts rs r e = omega (arith, length-keep-not (is_ready (names ts)) ts, ap length e)

drain-some :
    (fuel : ℕ) (t r : TaskState) (ts rs : List TaskState)
    → ready (t ∷ ts) ≡ r ∷ rs
    → drain (suc fuel) (t ∷ ts) ≡ drain fuel (waiting (t ∷ ts))
unfolding drain
drain-some fuel t r ts rs e = rw (e, drain)

drain-none :
    (fuel : ℕ) (t : TaskState) (ts : List TaskState)
    → ready (t ∷ ts) ≡ []
    → drain (suc fuel) (t ∷ ts) ≡ err state_invariant
unfolding drain
drain-none fuel t ts e = rw (e, drain)

List-cases :
    (xs : List TaskState) → (xs ≡ []) ⊎ ((x : TaskState) × (ys : List TaskState) × (xs ≡ x ∷ ys))
List-cases [] = inl refl
List-cases (x ∷ ys) = inr (x, ys, refl)

ranked-drain :
    (rank : String → ℕ) (fuel : ℕ) (ts : List TaskState)
    → IsRanked rank ts
    → length ts ≤ fuel
    → drain fuel ts ≡ ok tt
ranked-drain rank fuel [] r h = unfold drain in refl
ranked-drain rank zero (t ∷ ts) r h = absurd (omega arith)
ranked-drain rank (suc fuel) (t ∷ ts) r h = elim (List-cases (ready (t ∷ ts))) [
  | inl idle ↦
      absurd (descent rank (t ∷ ts) r idle (suc (rank t.task_id)) t (Memᴰ.head refl) (omega arith))
  | inr (x, xs, e) ↦
      drain-some fuel t x ts xs e
      ∙ ranked-drain rank fuel (waiting (t ∷ ts))
          (IsRanked-keep (λ u. not (is_ready (names (t ∷ ts)) u)) rank (t ∷ ts) r)
          (omega (arith, length-waiting (t ∷ ts) xs x e))
]

drain_iff : (ts : List TaskState) → (drain (length ts) ts ≡ ok tt) ↔ IsAcyclic ts
drain_iff ts = (
  λ h. record { rank = rounds (length ts) ts; ranked = drain-rounds (length ts) ts h },
  λ a. ranked-drain a.rank (length ts) ts a.ranked (omega arith),
)

accepted :
    (tasks : Dict TaskState)
    → dependencies_known tasks ≡ true
    → drain (length (values tasks)) (values tasks) ≡ ok tt
    → check_plan tasks ≡ ok tasks
unfolding check_plan
accepted tasks known dry = rw known (rw dry refl)

-- The checks on a finished map of tasks accept it exactly when every dependency names one of its
-- tasks and the dependencies have no cycle, that is, some ranking puts each dependency below its
-- task. As many rounds as there are tasks are enough for the loop that looks for a cycle.
pub check_plan_iff :
    (tasks : Dict TaskState)
    → (check_plan tasks ≡ ok tasks) ↔ ((dependencies_known tasks ≡ true) × IsAcyclic (values tasks))
check_plan_iff tasks = (
  λ h.
      let (e, known, dry) = check_plan-parts tasks tasks h in
      (known, (drain_iff (values tasks)).0 dry),
  λ (known, acyclic). accepted tasks known ((drain_iff (values tasks)).1 acyclic),
)

-- Within that bound the only failure of the loop is the cycle.
pub drain-error :
    (fuel : ℕ) (ts : List TaskState) (e : Error)
    → length ts ≤ fuel
    → drain fuel ts ≡ err e
    → e ≡ state_invariant
drain-error fuel [] e h q = unfold drain in cc
drain-error zero (t ∷ ts) e h q = absurd (omega arith)
drain-error (suc fuel) (t ∷ ts) e h q = elim (List-cases (ready (t ∷ ts))) [
  | inl idle ↦ ground (arith, drain-none fuel t ts idle)
  | inr (x, xs, some_ready) ↦
      drain-error fuel (waiting (t ∷ ts)) e (omega (arith, length-waiting (t ∷ ts) xs x some_ready))
        (sym (drain-some fuel t x ts xs some_ready) ∙ q)
]
