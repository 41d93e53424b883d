-- ===== src/Actions/Says.antt =====
-- What a JSON value says when it is read as an action, and the inversion of the steps that read it.
use alpha_orchestration.Prelude.{
  ◌≡◌, refl, sym, ap, ◌∙◌, ℕ, ◌≤◌, String, Bool, true, false, some, List, [], ◌∷◌, ◌⊎◌, inl, inr,
  ◌==◌, eq_iff, arith, Bool-cases, all, contains, length, All,
}
use alpha_orchestration.Prelude.Dict.{Dict, lookup, has_key, keys}
use alpha_orchestration.Prelude.Text.{is_empty, text_length, strip}
use alpha_orchestration.Json.{Json, str, arr, obj, Items, entries, fields, elements}
use alpha_orchestration.Journal.Verifier.{all_finite}
use alpha_orchestration.Actions.{
  Reading, read, refused, bad_limit, ◌>>=◌, insist, ActionErrorCode, ProposedToolCall, AgentAction,
  tool_calls_action, final_action, require_object, require_exact_keys, item, text, is_tool_name,
  invalid_envelope,
}
use alpha_orchestration.Actions.Keys.{fields-entries}

-- A tool name is non-empty, unpadded and at most 200 characters.
abbrev pub IsName : String → Type 0
IsName name = (is_empty name ≡ false) × (name ≡ strip name) × (text_length name ≤ 200)

-- The object has no key but these two.
abbrev pub HasOnly : String → String → Dict Json → Type 0
HasOnly a b m = All (λ k. (a ≡ k) ⊎ (b ≡ k)) (keys m)

-- An object with a name and arguments, which are those of the call.
abbrev pub SaysCall : Json → ProposedToolCall → Type 0
SaysCall v call =
    (m : Dict Json) × (v ≡ obj (fields m))
    × HasOnly "name" "arguments" m
    × (lookup "name" m ≡ some (str call.name))
    × (lookup "arguments" m ≡ some (obj (fields call.arguments)))
    × IsName call.name

-- The calls, one for one and in order.
pub data SaysCalls : List Json → List ProposedToolCall → Type 0 where
  no_calls : SaysCalls [] []
  calls_with :
      {v : Json} {call : ProposedToolCall} {vs : List Json} {calls : List ProposedToolCall}
      → SaysCall v call
      → SaysCalls vs calls
      → SaysCalls (v ∷ vs) (call ∷ calls)

-- The envelope of the action.
abbrev pub SaysIn : ℕ → Dict Json → AgentAction → Type 0
SaysIn max_calls m (final_action payload) =
    HasOnly "kind" "payload" m
    × (lookup "kind" m ≡ some (str "final"))
    × (lookup "payload" m ≡ some (obj (fields payload)))
SaysIn max_calls m (tool_calls_action calls) =
    HasOnly "kind" "calls" m
    × (lookup "kind" m ≡ some (str "tool_calls"))
    × (1 ≤ length calls)
    × (length calls ≤ max_calls)
    × ((xs : Items) × (lookup "calls" m ≡ some (arr xs)) × SaysCalls (elements xs) calls)

abbrev pub Says : ℕ → Json → AgentAction → Type 0
Says max_calls v action = (m : Dict Json) × (v ≡ obj (fields m)) × SaysIn max_calls m action

-- A successful bind.
pub read-inverts {ℓ κ} :
    {A : Type ℓ} {B : Type κ} (m : Reading A) (f : A → Reading B) {b : B}
    → (m >>= f) ≡ read b
    → (a : A) × (m ≡ read a) × (f a ≡ read b)
read-inverts (read a) f h = (a, refl, h)
read-inverts (refused c r) f h = absurd cc
read-inverts bad_limit f h = absurd cc

pub read-injective {ℓ} : {A : Type ℓ} (a b : A) → read a ≡ read b → a ≡ b
read-injective a b h = cc

pub insist-holds :
    (b : Bool) (code : ActionErrorCode) (repairable : Bool) (done : Unit {0})
    → insist b code repairable ≡ read done
    → b ≡ true
insist-holds true code repairable done h = refl
insist-holds false code repairable done h = absurd cc

pub item-inverts : (k : String) (m : Dict Json) (v : Json) → item k m ≡ read v → lookup k m ≡ some v
item-inverts k m v h = ground arith

pub text-inverts : (v : Json) (s : String) → text v ≡ read s → v ≡ str s
text-inverts (str t) s h = ap str (read-injective t s h)
text-inverts _ s h = absurd cc

pub require_object-inverts :
    (v : Json) (m : Dict Json)
    → require_object v ≡ read m
    → (v ≡ obj (fields m)) × (all_finite v ≡ true)
unfolding require_object
require_object-inverts (obj fs) m h = elim (Bool-cases (all_finite (obj fs))) [
  | inl e ↦
      let q : entries fs ≡ m = ground arith in
      (ap obj (sym (fields-entries fs)) ∙ ap (λ n. obj (fields n)) q, e)
  | inr e ↦ absurd (ground arith)
]
require_object-inverts _ m h = absurd cc

only-two :
    (a b : String) (ks : List String)
    → all (contains (a ∷ b ∷ [])) ks ≡ true
    → All (λ k. (a ≡ k) ⊎ (b ≡ k)) ks
only-two a b [] h = tt
only-two a b (k ∷ ks) h = elim (Bool-cases (a == k)) [
  | inl e ↦ (inl (ground (arith, eq_iff a k)), only-two a b ks (ground arith))
  | inr e ↦ (inr (ground (arith, eq_iff b k)), only-two a b ks (ground arith))
]

pub require_exact_keys-HasOnly :
    (a b : String) (m : Dict Json) (done : Unit {0})
    → require_exact_keys m (a ∷ b ∷ []) ≡ read done
    → HasOnly a b m
unfolding require_exact_keys
require_exact_keys-HasOnly a b m done h =
    let (there, e, rest) =
      read-inverts (insist (all (λ k. has_key k m) (a ∷ b ∷ [])) invalid_envelope true) _ h in
    only-two a b (keys m) (insist-holds _ invalid_envelope true done rest)

pub is_tool_name-IsName : (name : String) → is_tool_name name ≡ true → IsName name
is_tool_name-IsName name h = (ground arith, ground (arith, eq_iff name (strip name)), ground arith)
