-- ===== src/Reducer/Cancel.antt =====
-- The branch of `reduce_event` for run_cancelled.
use alpha_orchestration.Prelude.{◌≡◌, refl, subst, true, [], ◌∷◌, keep, length, arith}
use alpha_orchestration.Prelude.Dict.{Dict, values}
use alpha_orchestration.Result.{ok}
use alpha_orchestration.Json.Python.{Python}
use alpha_orchestration.Domain.Enums.{RunStatus, run_cancelled}
use alpha_orchestration.Domain.Event.{RunEvent}
use alpha_orchestration.Domain.State.{
  AgentState, RunState, terminal, active_agents, complete_agents, is_active_agent,
  is_complete_agent,
}
use alpha_orchestration.Reducer.Envelope.{reduce_event-inverts}
use alpha_orchestration.Reducer.Step.{advance, cancel_agents, dispatch, reduce_event}

none_active : (m : Dict AgentState) → length (keep is_active_agent (values (cancel_agents m))) ≡ 0
unfolding cancel_agents
none_active [] = refl
none_active ((k, a) ∷ m) = ground (arith, none_active m)

complete_kept :
    (m : Dict AgentState)
    → length (keep is_complete_agent (values (cancel_agents m)))
      ≡ length (keep is_complete_agent (values m))
unfolding cancel_agents
complete_kept [] = refl
complete_kept ((k, a) ∷ m) = ground (arith, complete_kept m)

-- After an accepted run_cancelled the run is over and no agent is active; the agents that were
-- complete stay counted as complete, and the tasks are left as they were.
pub cancel_idles :
    (py : Python) (s : RunState) (event : RunEvent) (t : RunState)
    → event.kind ≡ run_cancelled
    → reduce_event py s event ≡ ok t
    → (terminal t ≡ true)
      × (active_agents t ≡ 0)
      × (complete_agents t ≡ complete_agents s)
      × (t.tasks ≡ s.tasks)
unfolding dispatch
cancel_idles py s event t kind h =
    let done = (reduce_event-inverts py s event t h).1 in
    let q = subst (λ k. dispatch py event k (advance s event) ≡ ok t) kind done in
    idle t (cancelled t q)
  where
    cancelled :
        (u : RunState)
        → dispatch py event run_cancelled (advance s event) ≡ ok u
        → record (advance s event) { status = RunStatus.cancelled; agents = cancel_agents s.agents }
          ≡ u
    cancelled u q = cc

    idle :
        (u : RunState)
        → record (advance s event) { status = RunStatus.cancelled; agents = cancel_agents s.agents }
          ≡ u
        → (terminal u ≡ true)
          × (active_agents u ≡ 0)
          × (complete_agents u ≡ complete_agents s)
          × (u.tasks ≡ s.tasks)
    idle u e =
        subst
          (λ v.
            (terminal v ≡ true)
            × (active_agents v ≡ 0)
            × (complete_agents v ≡ complete_agents s)
            × (v.tasks ≡ s.tasks))
          e (refl, none_active s.agents, complete_kept s.agents, refl)
