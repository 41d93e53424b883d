-- ===== src/Actions/Keys.antt =====
-- Objects without a repeated key: how `json.loads` uses its hook, and what the hook `_unique_object`
-- leaves of the literal value of a text.
use alpha_orchestration.Prelude.{
  ◌≡◌, refl, sym, ap, ◌∙◌, String, Bool, true, false, ◌&&◌, Option, some, [], ◌∷◌, ◌++◌, ◌==◌,
  arith, eq_iff, ◌⊎◌, inl, inr, Bool-cases, contains, all_unique,
}
use mathlib.Core.List.{append_assoc, append-nil}
use alpha_orchestration.Prelude.Dict.{Dict, lookup, has_key, insert, keys}
use alpha_orchestration.Json.{Json, arr, obj, Items, nil, cons, Fields, end, field, entries, fields}
use alpha_orchestration.Actions.{Hook, Decoder, loaded, unique_from, unique_object}

-- No object in the value repeats a key.
unfoldable mutual
  pub unique_keys : Json → Bool
  unique_keys (arr xs) = items_unique xs
  unique_keys (obj fs) = all_unique (keys (entries fs)) && fields_unique fs
  unique_keys _ = true

  pub items_unique : Items → Bool
  items_unique nil = true
  items_unique (cons x xs) = unique_keys x && items_unique xs

  pub fields_unique : Fields → Bool
  fields_unique end = true
  fields_unique (field k v fs) = unique_keys v && fields_unique fs

-- The second value is what `json.loads` makes of the first: the hook is called for each object, with
-- all its pairs, whose values have been decoded before, and its result replaces the object.
unfoldable mutual
  pub Decodes : Hook → Json → Json → Type 0
  Decodes hook (arr xs) v = (ys : Items) × (v ≡ arr ys) × ItemsDecode hook xs ys
  Decodes hook (obj fs) v =
      (gs : Fields) × FieldsDecode hook fs gs
      × ((m : Dict Json) × (hook (entries gs) ≡ inr m) × (v ≡ obj (fields m)))
  Decodes hook t v = v ≡ t

  pub ItemsDecode : Hook → Items → Items → Type 0
  ItemsDecode hook nil ys = ys ≡ nil
  ItemsDecode hook (cons x xs) ys =
      (y : Json) × (zs : Items) × (ys ≡ cons y zs) × Decodes hook x y × ItemsDecode hook xs zs

  pub FieldsDecode : Hook → Fields → Fields → Type 0
  FieldsDecode hook end gs = gs ≡ end
  FieldsDecode hook (field k t fs) gs =
      (v : Json) × (hs : Fields) × (gs ≡ field k v hs) × Decodes hook t v × FieldsDecode hook fs hs

-- `literal raw` is the one JSON value that the text `raw` writes, with every pair of its objects,
-- those with a repeated key too. What `json.loads` returns is made of it by the hook.
pub record IsHooked (decoder : Decoder) (literal : String → Option Json) : Type 0 where
  pub decodes :
      (hook : Hook) (raw : String) (v : Json)
      → decoder.loads hook raw ≡ loaded v
      → (t : Json) × (literal raw ≡ some t) × Decodes hook t v

contains-insert :
    (k j : String) (v : Json) (m : Dict Json)
    → contains (keys (insert k v m)) j ≡ true
    → (k ≡ j) ⊎ (contains (keys m) j ≡ true)
unfolding insert
contains-insert k j v [] h = inl (ground (arith, eq_iff k j))
contains-insert k j v ((i, w) ∷ m) h = elim (Bool-cases (i == k)) [
  | inl e ↦ inr (ground arith)
  | inr e ↦ elim (Bool-cases (i == j)) [
    | inl g ↦ inr (ground arith)
    | inr g ↦ elim (contains-insert k j v m (ground arith)) [
      | inl q ↦ inl q
      | inr q ↦ inr (ground arith)
    ]
  ]
]

all_unique-insert :
    (k : String) (v : Json) (m : Dict Json)
    → all_unique (keys m) ≡ true
    → all_unique (keys (insert k v m)) ≡ true
unfolding insert
all_unique-insert k v [] h = refl
all_unique-insert k v ((i, w) ∷ m) h = elim (Bool-cases (i == k)) [
  | inl e ↦ ground arith
  | inr e ↦ elim (Bool-cases (contains (keys (insert k v m)) i)) [
    | inr g ↦ ground (arith, all_unique-insert k v m)
    | inl g ↦ elim (contains-insert k i v m g) [
      | inl q ↦ absurd (ground (arith, eq_iff i k))
      | inr q ↦ absurd (ground arith)
    ]
  ]
]

insert_fresh :
    (k : String) (v : Json) (m : Dict Json) → has_key k m ≡ false → insert k v m ≡ m ++ (k, v) ∷ []
unfolding insert lookup
insert_fresh k v [] h = refl
insert_fresh k v ((j, w) ∷ m) h = elim (Bool-cases (j == k)) [
  | inl e ↦ absurd (ground arith)
  | inr e ↦ rw e (ap (λ rest. (j, w) ∷ rest) (insert_fresh k v m (ground arith)))
]

-- The hook returns all the pairs that it was given, in their order, and only without a repeated key.
unique_from-keeps :
    (result pairs m : Dict Json)
    → all_unique (keys result) ≡ true
    → unique_from result pairs ≡ inr m
    → (m ≡ result ++ pairs) × (all_unique (keys m) ≡ true)
unfolding unique_from
unique_from-keeps result [] m h e =
    let q : result ≡ m = ground arith in (sym q ∙ sym (append-nil result), ground arith)
unique_from-keeps result ((k, v) ∷ pairs) m h e = elim (Bool-cases (has_key k result)) [
  | inl g ↦ absurd (ground arith)
  | inr g ↦
      let (all_pairs, unique) =
        unique_from-keeps (insert k v result) pairs m (all_unique-insert k v result h)
          (ground arith) in
      (
        all_pairs
            ∙ ap (λ r. r ++ pairs) (insert_fresh k v result g)
            ∙ append_assoc result ((k, v) ∷ []) pairs,
        unique,
      )
]

pub fields-entries : (fs : Fields) → fields (entries fs) ≡ fs
fields-entries end = refl
fields-entries (field k v fs) = ap (field k v) (fields-entries fs)

mutual
  unfolding Decodes ItemsDecode FieldsDecode unique_keys items_unique fields_unique

  pub Decodes-unique : (t v : Json) → Decodes unique_object t v → (v ≡ t) × (unique_keys t ≡ true)
  Decodes-unique (arr xs) v (ys, q, d) =
      let (same, unique) = Items-unique xs ys d in (q ∙ ap arr same, unique)
  Decodes-unique (obj fs) v (gs, d, (m, e, q)) =
      let (same, unique) = Fields-unique fs gs d in
      let (kept, once) = unique_from-keeps [] (entries gs) m refl e in
      let all_once : all_unique (keys (entries fs)) ≡ true =
        sym (ap (λ n. all_unique (keys n)) (kept ∙ ap entries same)) ∙ once in
      (q ∙ ap (λ n. obj (fields n)) kept ∙ ap obj (fields-entries gs ∙ same), ground arith)
  Decodes-unique _ v d = (d, refl)

  Items-unique :
      (xs ys : Items) → ItemsDecode unique_object xs ys → (ys ≡ xs) × (items_unique xs ≡ true)
  Items-unique nil ys d = (d, refl)
  Items-unique (cons x xs) ys (y, zs, q, d, ds) =
      let (same, unique) = Decodes-unique x y d in
      let (others, all_others) = Items-unique xs zs ds in
      (q ∙ ap (λ z. cons z zs) same ∙ ap (cons x) others, ground arith)

  Fields-unique :
      (fs gs : Fields) → FieldsDecode unique_object fs gs → (gs ≡ fs) × (fields_unique fs ≡ true)
  Fields-unique end gs d = (d, refl)
  Fields-unique (field k t fs) gs (v, hs, q, d, ds) =
      let (same, unique) = Decodes-unique t v d in
      let (others, all_others) = Fields-unique fs hs ds in
      (q ∙ ap (λ z. field k z hs) same ∙ ap (field k t) others, ground arith)
