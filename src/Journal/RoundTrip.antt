-- ===== src/Journal/RoundTrip.antt =====
-- What a journal has written is what it loads and replays.
use mathlib.Core.List.{append_assoc, append-nil}
use alpha_orchestration.Prelude.{
  ◌≡◌, refl, ap, ◌∙◌, String, false, Option, none, some, List, [], ◌∷◌, ◌++◌, map, All, arith,
}
use alpha_orchestration.Prelude.Text.{strip, is_empty}
use alpha_orchestration.Result.{Result, ok, ◌>>=◌, >>=-eq-ok}
use alpha_orchestration.Json.{Json, obj, fields}
use alpha_orchestration.Json.Python.{Python}
use alpha_orchestration.Domain.Event.{RunEvent, event_to_dict}
use alpha_orchestration.Domain.RoundTrip.{event_from_dict-to_dict, entries-fields}
use alpha_orchestration.Journal.Verifier.{Hashing, Identity, verify}
use alpha_orchestration.Journal.Store.{Codec, JsonlJournal, new_jsonl, jsonl_append}
use alpha_orchestration.Journal.Load.{load_line, load_from, load_events, replay, replay_events}

abbrev pub event_value : Python → RunEvent → Json
event_value py e = obj (fields (event_to_dict py e))

-- The line of an event holds text, `json.loads` reads back what `json.dumps` wrote in it, and
-- `fromisoformat` what `isoformat` wrote of its timestamp.
pub record IsReadable (py : Python) (codec : Codec) (e : RunEvent) : Type 0 where
  pub visible : is_empty (strip (codec.dumps (event_value py e))) ≡ false
  pub decoded : codec.loads (codec.dumps (event_value py e)) ≡ ok (event_value py e)
  pub dated : py.iso_parse (py.iso_text e.timestamp) ≡ some e.timestamp

-- The verifier over a list of events.
unfoldable pub verify_all : Hashing → Option Identity → List RunEvent → Result (Option Identity)
verify_all hashing known [] = ok known
verify_all hashing known (e ∷ es) = verify hashing known e >>= λ next. verify_all hashing next es

-- One `append` after the other.
unfoldable pub write_all : Python → Codec → JsonlJournal → List RunEvent → Result JsonlJournal
write_all py codec j [] = ok j
write_all py codec j (e ∷ es) = jsonl_append py codec j e >>= λ k. write_all py codec k es

module _ (py : Python) (codec : Codec) where
  abbrev line_of : RunEvent → String
  line_of e = codec.dumps (event_value py e)

  jsonl_append-lines :
      (j k : JsonlJournal) (e : RunEvent)
      → jsonl_append py codec j e ≡ ok k
      → k.lines ≡ j.lines ++ line_of e ∷ []
  unfolding jsonl_append
  jsonl_append-lines j k e h = ground arith

  write_all-lines :
      (j k : JsonlJournal) (es : List RunEvent)
      → write_all py codec j es ≡ ok k
      → k.lines ≡ j.lines ++ map line_of es
  unfolding write_all
  write_all-lines j k [] h = rw append-nil (ap (λ x. x.lines) (ok_same k j h))
    where
      ok_same : (a b : JsonlJournal) → ok b ≡ ok a → a ≡ b
      ok_same a b q = cc
  write_all-lines j k (e ∷ es) h =
      let (m, one, rest) = >>=-eq-ok (jsonl_append py codec j e) (λ n. write_all py codec n es) h in
      write_all-lines m k es rest
      ∙ ap (λ ls. ls ++ map line_of es) (jsonl_append-lines j m e one)
      ∙ append_assoc j.lines (line_of e ∷ []) (map line_of es)

  module _ (hashing : Hashing) where
    load_line-written :
        (known next : Option Identity) (e : RunEvent)
        → IsReadable py codec e
        → verify hashing known e ≡ ok next
        → load_line py codec hashing known (line_of e) ≡ ok (e, next)
    unfolding load_line
    load_line-written known next e r v = rw r.decoded (
        rw (entries-fields (event_to_dict py e))
          (rw (event_from_dict-to_dict py e r.dated) (rw v refl)))

    load_from-written :
        (known last : Option Identity) (es : List RunEvent)
        → All (IsReadable py codec) es
        → verify_all hashing known es ≡ ok last
        → load_from py codec hashing known (map line_of es) ≡ ok es
    unfolding load_from verify_all
    load_from-written known last [] r v = refl
    load_from-written known last (e ∷ es) r v =
        let (next, one, rest) =
          >>=-eq-ok (verify hashing known e) (λ n. verify_all hashing n es) v in
        rw (r.0).visible (
          rw (load_line-written known next e (r.0) one)
            (rw (load_from-written next last es (r.1) rest) refl))

    -- Events that a fresh JSONL journal accepted, and that the verifier accepts in order, are what
    -- `load_events` reads from the lines of the journal.
    pub load_events-written :
        (es : List RunEvent) (j : JsonlJournal) (last : Option Identity)
        → write_all py codec new_jsonl es ≡ ok j
        → All (IsReadable py codec) es
        → verify_all hashing none es ≡ ok last
        → load_events py codec hashing j.lines ≡ ok es
    load_events-written es j last w r v =
        rw (write_all-lines new_jsonl j es w) (load_from-written none last es r v)

    -- So `replay` of that file is the reduction of the written events.
    pub replay-written :
        (es : List RunEvent) (j : JsonlJournal) (last : Option Identity)
        → write_all py codec new_jsonl es ≡ ok j
        → All (IsReadable py codec) es
        → verify_all hashing none es ≡ ok last
        → replay py codec hashing j.lines ≡ replay_events py codec hashing es
    unfolding replay
    replay-written es j last w r v = rw (load_events-written es j last w r v)
