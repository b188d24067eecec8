-- ===== src/Json/Writer.antt =====
-- The part of nlohmann/json that writes documents: the values that src/data/journal.cpp and
-- src/replay/replay.cpp build, and `dump`.
use eventbook.Prelude.{
  ℕ, ◌≤◌, ◌<◌, ◌^◌, ◌≡◌, ◌==◌, ltb, ◌&&◌, length, Bool, true, false, has_value, Bool-cases, inl,
  inr, subst, Option, none, some, List, [], ◌∷◌, All, if◌then◌else◌, Bytes, bytes_eq, bytes_eq_iff,
}
use eventbook.Prelude.Int.{ℤ, InRange}
use eventbook.Json.{JsonLibrary}

mutual
  pub data Built : Type 0 where
    text : Bytes → Built
    integer : ℤ → Built
    unsigned : ℕ → Built
    array : BuiltItems → Built
    object : BuiltFields → Built

  pub data BuiltItems : Type 0 where
    end : BuiltItems
    item : Built → BuiltItems → BuiltItems

  pub data BuiltFields : Type 0 where
    stop : BuiltFields
    field : Bytes → Built → BuiltFields → BuiltFields

-- `document[name] = value` for a value that is there, and nothing otherwise.
abbrev pub optional_field {ℓ} :
    {A : Type ℓ} → Bytes → (A → Built) → Option A → BuiltFields → BuiltFields
optional_field name build none fields = fields
optional_field name build (some a) fields = field name (build a) fields

abbrev pub lookup : Bytes → BuiltFields → Option Built
lookup name stop = none
lookup name (field key value fields) =
    let later = lookup name fields in if bytes_eq key name then some value else later

-- What a document that was built reads as: each value as itself, where it is one
-- of the machine's integers, the fields of an object under their
-- names, the first of two with one name, and nothing under any other name.
abbrev mutual
  pub Reads : (lib : JsonLibrary) → lib.Json → Built → Type 0
  Reads lib j (text s) = lib.as_string j ≡ some s
  Reads lib j (integer z) =
      (InRange 63 z → lib.as_integer j ≡ some z) × (InRange 31 z → lib.as_int j ≡ some z)
  Reads lib j (unsigned n) = n < 2 ^ 64 → lib.as_unsigned j ≡ some n
  Reads lib j (array items) =
      (js : List lib.Json) × (lib.as_array j ≡ some js) × ReadsItems lib js items
  Reads lib j (object fields) = (lib.is_object j ≡ true) × ReadsFields lib (lib.find j) fields

  pub ReadsItems : (lib : JsonLibrary) → List lib.Json → BuiltItems → Type 0
  ReadsItems lib js end = js ≡ []
  ReadsItems lib js (item v vs) =
      (j : lib.Json) × (rest : List lib.Json) × (js ≡ j ∷ rest)
      × Reads lib j v
      × ReadsItems lib rest vs

  pub ReadsFields : (lib : JsonLibrary) → (Bytes → Option lib.Json) → BuiltFields → Type 0
  ReadsFields lib found stop = (name : Bytes) → found name ≡ none
  ReadsFields lib found (field key v fields) =
      ((j : lib.Json) × (found key ≡ some j) × Reads lib j v)
      × ((others : Bytes → Option lib.Json) × ((name : Bytes)
            → bytes_eq key name ≡ false
            → found name ≡ others name)
          × ReadsFields lib others fields)

-- A predicate of every text in a value; the names of fields are ASCII.
abbrev mutual
  pub AllTexts : (Bytes → Type 0) → Built → Type 0
  AllTexts P (text s) = P s
  AllTexts P (integer z) = Unit
  AllTexts P (unsigned n) = Unit
  AllTexts P (array items) = AllTextsItems P items
  AllTexts P (object fields) = AllTextsFields P fields

  pub AllTextsItems : (Bytes → Type 0) → BuiltItems → Type 0
  AllTextsItems P end = Unit
  AllTextsItems P (item v vs) = AllTexts P v × AllTextsItems P vs

  pub AllTextsFields : (Bytes → Type 0) → BuiltFields → Type 0
  AllTextsFields P stop = Unit
  AllTextsFields P (field key v fields) = AllTexts P v × AllTextsFields P fields

-- The writing side: `dump`, which throws on a text that is not UTF-8 (`none`).
pub record JsonWriter : Type 0 where
  pub dump : Built → Option Bytes
  pub is_utf8 : Bytes → Bool

abbrev pub newline : ℕ
newline = 10

abbrev pub is_ascii : Bytes → Bool
is_ascii [] = true
is_ascii (c ∷ s) = ltb c 128 && is_ascii s

-- What the documentation says of the two sides together: what is dumped is parsed again, dumping fails
-- on nothing but a text that is not UTF-8, which an ASCII text is, and without an indentation it gives one line.
pub record JsonLaws (lib : JsonLibrary) (writer : JsonWriter) : Type 1 where
  pub parse-dump :
      (v : Built) (t : Bytes)
      → writer.dump v ≡ some t
      → (j : lib.Json) × (lib.parse t ≡ some j) × Reads lib j v
  pub ascii_is_utf8 : (s : Bytes) → is_ascii s ≡ true → writer.is_utf8 s ≡ true
  pub dump_total :
      (v : Built) → AllTexts (λ s. writer.is_utf8 s ≡ true) v → has_value (writer.dump v) ≡ true
  pub dump_one_line :
      (v : Built) (t : Bytes)
      → writer.dump v ≡ some t
      → All (λ c. (c == newline) ≡ false) t × (1 ≤ length t)

-- A lookup by name in the reading agrees with a lookup in what was built.
abbrev pub AgreesWith : (lib : JsonLibrary) → Option lib.Json → Option Built → Type 0
AgreesWith lib none none = Unit
AgreesWith lib none (some v) = ⊥
AgreesWith lib (some j) none = ⊥
AgreesWith lib (some j) (some v) = Reads lib j v

pub ReadsFields-lookup :
    (lib : JsonLibrary) (found : Bytes → Option lib.Json) (fields : BuiltFields) (name : Bytes)
    → ReadsFields lib found fields
    → AgreesWith lib (found name) (lookup name fields)
ReadsFields-lookup lib found stop name h = rw (h name) tt
ReadsFields-lookup lib found (field key v fields) name h =
    let (j, at_key, reads) = h.0 in
    let (others, same, rest) = h.1 in
    elim (Bool-cases (bytes_eq key name)) [
      | inl e ↦
          let here : found name ≡ some j =
            subst (λ k. found k ≡ some j) ((bytes_eq_iff key name).0 e) at_key in
          rw (e, lookup, here) reads
      | inr e ↦ rw (e, lookup, same name e) (ReadsFields-lookup lib others fields name rest)
    ]
