-- ===== src/Domain/RoundTrip.antt =====
-- `to_dict` and `from_dict` of domain.py are inverse.
use alpha_orchestration.Prelude.{
  ◌≡◌, refl, sym, ap, subst, String, Option, none, some, [], ◌∷◌, arith,
}
use alpha_orchestration.Prelude.Dict.{Dict, lookup}
use alpha_orchestration.Prelude.Text.{strip, strip-strip}
use alpha_orchestration.Result.{ok}
use alpha_orchestration.Json.{Json, entries, fields}
use alpha_orchestration.Json.Python.{Python, to_int, to_text}
use alpha_orchestration.Domain.Enums.{
  EventKind, run_created, kind_text, kinds, member_of, ResearchDepth, quick, depth_text, depths,
}
use alpha_orchestration.Domain.Spec.{RunSpec, make_spec, spec_to_dict, spec_from_dict}
use alpha_orchestration.Domain.Event.{
  RunEvent, event_to_dict, event_from_dict, optional_text, read_agent,
}

pub entries-fields : (m : Dict Json) → entries (fields m) ≡ m
entries-fields [] = refl
entries-fields ((k, v) ∷ m) = ap (λ r. (k, v) ∷ r) (entries-fields m)

kind_of_text : (k : EventKind) → member_of kind_text kinds (kind_text k) ≡ some k
kind_of_text run_created = refl
kind_of_text _ = refl

depth_of_text : (d : ResearchDepth) → member_of depth_text depths (depth_text d) ≡ some d
depth_of_text quick = refl
depth_of_text _ = refl

agent_of_text : (py : Python) (a : Option String) → read_agent py (some (optional_text a)) ≡ a
unfolding to_text
agent_of_text py none = refl
agent_of_text py (some s) = refl

-- Reading back the JSON form of an event gives the event, if its timestamp is read back from its ISO
-- text.
pub event_from_dict-to_dict :
    (py : Python) (e : RunEvent)
    → py.iso_parse (py.iso_text e.timestamp) ≡ some e.timestamp
    → event_from_dict py (event_to_dict py e) ≡ ok e
unfolding event_from_dict event_to_dict to_int to_text lookup
event_from_dict-to_dict py e iso = rw (kind_of_text e.kind) (
    rw iso (
      rw (entries-fields e.payload)
        (ap (λ a. ok (record e { agent_id = a })) (agent_of_text py e.agent_id))))

make_spec-sector : (s t : RunSpec) → make_spec s ≡ ok t → t ≡ record s { sector = strip s.sector }
unfolding make_spec
make_spec-sector s t h = ground arith

make_spec_again :
    (s t : RunSpec) → make_spec s ≡ ok t → make_spec (record s { sector = strip s.sector }) ≡ ok t
unfolding make_spec
make_spec_again s t h = rw (strip-strip s.sector) h

-- A mandate that passed its checks passes them again unchanged: its sector is already stripped.
make_spec_idem : (s t : RunSpec) → make_spec s ≡ ok t → make_spec t ≡ ok t
make_spec_idem s t h =
    subst (λ r. make_spec r ≡ ok t) (sym (make_spec-sector s t h)) (make_spec_again s t h)

read_back :
    (py : Python) (t : RunSpec) → make_spec t ≡ ok t → spec_from_dict py (spec_to_dict t) ≡ ok t
unfolding spec_from_dict spec_to_dict to_int to_text lookup
read_back py t valid = rw (depth_of_text t.depth) valid

-- Reading back the JSON form of a mandate that `RunSpec(…)` accepted gives that mandate.
pub spec_from_dict-to_dict :
    (py : Python) (s t : RunSpec) → make_spec s ≡ ok t → spec_from_dict py (spec_to_dict t) ≡ ok t
spec_from_dict-to_dict py s t h = read_back py t (make_spec_idem s t h)
