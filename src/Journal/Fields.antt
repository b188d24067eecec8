-- ===== src/Journal/Fields.antt =====
-- What is read under the names of a document whose fields are known.
use eventbook.Prelude.{
  ◌≡◌, refl, Bool, true, false, Option, none, some, Bytes, bytes_eq, arith, Option-cases, inl, inr,
  subst,
}
use eventbook.Json.{JsonLibrary}
use eventbook.Json.Writer.{
  Built, AgreesWith, ReadsFields, ReadsFields-lookup, lookup, BuiltFields, optional_field, Reads,
}
use eventbook.Journal.Codec.{value_of, map_option}

abbrev pub first_of : {A : Type 0} → Bool → (A → Built) → Option A → Option Built → Option Built
first_of true build (some a) later = some (build a)
first_of true build none later = later
first_of false build o later = later

pub lookup-optional_field :
    {A : Type 0} (name key : Bytes) (build : A → Built) (o : Option A) (fields : BuiltFields)
    → lookup name (optional_field key build o fields)
      ≡ first_of (bytes_eq key name) build o (lookup name fields)
lookup-optional_field name key build none fields = ground arith
lookup-optional_field name key build (some a) fields = ground arith

-- The value under a name of a document whose fields are known.
pub find-lookup :
    (lib : JsonLibrary) (document : lib.Json) (fields : BuiltFields)
    (reading : ReadsFields lib (lib.find document) fields) (name : Bytes) (v : Built)
    → lookup name fields ≡ some v
    → (j : lib.Json) × (lib.find document name ≡ some j) × Reads lib j v
find-lookup lib document fields reading name v here = from_agreement (lib.find document name) refl (
    subst (AgreesWith lib (lib.find document name)) here
      (ReadsFields-lookup lib (lib.find document) fields name reading))
  where
    from_agreement :
        (found : Option lib.Json)
        → lib.find document name ≡ found
        → AgreesWith lib found (some v)
        → (j : lib.Json) × (lib.find document name ≡ some j) × Reads lib j v
    from_agreement none e h = absurd h
    from_agreement (some j) e h = (j, e, h)

-- What is read under a name of a document whose fields are known.
module _ (lib : JsonLibrary) (document : lib.Json) (fields : BuiltFields)
    (reading : ReadsFields lib (lib.find document) fields) {A : Type 0} (read : lib.Json → Option A)
    (name : Bytes) where
  pub value_of-lookup :
      (v : Built) (a : A)
      → lookup name fields ≡ some v
      → ((j : lib.Json) → Reads lib j v → read j ≡ some a)
      → value_of lib document read name ≡ some a
  value_of-lookup v a here reads =
      let (j, e, reading_j) = find-lookup lib document fields reading name v here in
      rw (e, value_of) (reads j reading_j)

  value_of-missing : lookup name fields ≡ none → value_of lib document read name ≡ none
  value_of-missing here =
      let agrees : AgreesWith lib (lib.find document name) none =
        subst (AgreesWith lib (lib.find document name)) here
          (ReadsFields-lookup lib (lib.find document) fields name reading) in
      elim (Option-cases (lib.find document name)) [
        | inl e ↦ rw (e, value_of) refl
        | inr (j, e) ↦ absurd (subst (λ f. AgreesWith lib f none) e agrees)
      ]

  pub value_of-optional :
      {B : Type 0} (build : B → Built) (raw : B → A) (o : Option B)
      → lookup name fields ≡ first_of true build o none
      → ((b : B) → o ≡ some b → (j : lib.Json) → Reads lib j (build b) → read j ≡ some (raw b))
      → value_of lib document read name ≡ map_option raw o
  value_of-optional build raw none here reads = value_of-missing here
  value_of-optional build raw (some b) here reads =
      value_of-lookup (build b) (raw b) here (reads b refl)
