-- ===== src/Domain/Spec.antt =====
-- `RunSpec` of domain.py: a bounded research mandate and its JSON form.
use alpha_orchestration.Prelude.{ℕ, String, Bool, not, [], ◌∷◌, ◌&&◌, ◌==◌, if◌then◌else◌}
use alpha_orchestration.Prelude.Int.{ℤ, pos, leb_ℤ}
use alpha_orchestration.Prelude.Dict.{Dict, lookup}
use alpha_orchestration.Prelude.Text.{strip, is_empty}
use alpha_orchestration.Result.{Result, ok, guard, or_raise, ◌>>=◌, ◌>>◌, value_error, key_error}
use alpha_orchestration.Json.{Json, str, int}
use alpha_orchestration.Json.Python.{Python, to_int, to_text}
use alpha_orchestration.Domain.Enums.{ResearchDepth, depth_text, depths, member_of}

pub record RunSpec : Type 0 where
  pub sector : String
  pub depth : ResearchDepth
  pub universe_size : ℤ
  pub agent_budget : ℤ
  pub active_slots : ℤ
  pub mode : String
  pub run_id : String

abbrev pub within : ℕ → ℕ → ℤ → Bool
within lo hi n = leb_ℤ (pos lo) n && leb_ℤ n (pos hi)

-- The bounds of `universe_size` by mode.
unfoldable pub universe_bounds : String → ℕ × ℕ
universe_bounds mode =
    if mode == "live" then (1, 8) else if mode == "automatic_live" then (100, 500) else (3, 500)

-- `RunSpec(…)` with `__post_init__`.
unfoldable pub make_spec : RunSpec → Result RunSpec
make_spec s = do
  let sector = strip s.sector
  guard (not (is_empty sector)) value_error
  let bounds = universe_bounds s.mode
  guard (within (bounds.0) (bounds.1) s.universe_size) value_error
  guard (within 1 8 s.agent_budget) value_error
  guard (leb_ℤ (pos 1) s.active_slots && leb_ℤ s.active_slots s.agent_budget) value_error
  guard (not (is_empty (strip s.run_id))) value_error
  ok (record s { sector = sector })

-- `RunSpec.to_dict`
unfoldable pub spec_to_dict : RunSpec → Dict Json
spec_to_dict s =
    ("sector", str s.sector)
    ∷ ("depth", str (depth_text s.depth))
    ∷ ("universe_size", int s.universe_size)
    ∷ ("agent_budget", int s.agent_budget)
    ∷ ("active_slots", int s.active_slots)
    ∷ ("mode", str s.mode)
    ∷ ("run_id", str s.run_id)
    ∷ []

-- `data[key]`
abbrev pub subscript : Dict Json → String → Result Json
subscript m k = or_raise (lookup k m) key_error

-- `RunSpec.from_dict`
unfoldable pub spec_from_dict : Python → Dict Json → Result RunSpec
spec_from_dict py m = do
  sector ← subscript m "sector"
  depth_value ← subscript m "depth"
  depth ← or_raise (member_of depth_text depths (to_text py depth_value)) value_error
  size_value ← subscript m "universe_size"
  universe_size ← to_int py size_value
  budget_value ← subscript m "agent_budget"
  agent_budget ← to_int py budget_value
  slots_value ← subscript m "active_slots"
  active_slots ← to_int py slots_value
  mode ← subscript m "mode"
  run_id ← subscript m "run_id"
  make_spec (record {
    sector = to_text py sector;
    depth = depth;
    universe_size = universe_size;
    agent_budget = agent_budget;
    active_slots = active_slots;
    mode = to_text py mode;
    run_id = to_text py run_id;
  })
