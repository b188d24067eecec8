-- ===== src/Json/Tokens.antt =====
-- A writer and a reader of documents that satisfy the laws of `JsonLaws`, for the examples: postfix
-- tokens, one number each, and a machine with a stack.
use eventbook.Prelude.{
  ℕ, zero, suc, leb, ◌≤◌, ◌+◌, ◌-◌, ◌≡◌, refl, ◌∙◌, ap, length, ◌==◌, true, false, Option, none,
  some, List, [], ◌∷◌, All, if◌then◌else◌, Bytes, bytes_eq, bytes_eq_iff, arith, subst,
}
use eventbook.Prelude.Int.{pos, negsuc}
use eventbook.Json.{JsonLibrary}
use eventbook.Json.Writer.{
  Built, text, integer, unsigned, array, object, BuiltItems, end, item, BuiltFields, stop, field,
  JsonWriter, JsonLaws, lookup, newline, Reads, ReadsItems, ReadsFields,
}

pub data Stack : Type 0 where
  empty : Stack
  value : Built → Stack → Stack
  items : BuiltItems → Stack → Stack
  fields : BuiltFields → Stack → Stack
  word : Bytes → Stack → Stack

abbrev push_char : ℕ → Stack → Stack
push_char c (word s st) = word (c ∷ s) st
push_char c _ = empty

abbrev command : ℕ → Stack → Stack
command zero st = word [] st
command (suc zero) (word s st) = value (text s) st
command (suc (suc zero)) (word (n ∷ []) st) = value (integer (pos n)) st
command (suc (suc (suc zero))) (word (n ∷ []) st) = value (integer (negsuc n)) st
command (suc (suc (suc (suc zero)))) (word (n ∷ []) st) = value (unsigned n) st
command (suc (suc (suc (suc (suc zero))))) st = items end st
command (suc (suc (suc (suc (suc (suc zero)))))) (value v (items vs st)) = items (item v vs) st
command (suc (suc (suc (suc (suc (suc (suc zero))))))) (items vs st) = value (array vs) st
command (suc (suc (suc (suc (suc (suc (suc zero))))))) (fields fs st) = value (object fs) st
command (suc (suc (suc (suc (suc (suc (suc (suc zero)))))))) st = fields stop st
command (suc (suc (suc (suc (suc (suc (suc (suc (suc zero)))))))))
      (word key (value v (fields fs st))) =
    fields (field key v fs) st
command _ _ = empty

abbrev step : ℕ → Stack → Stack
step c st = if leb 11 c then push_char (c - 11) st else command c st

abbrev run : Bytes → Stack → Stack
run [] st = st
run (c ∷ t) st = run t (step c st)

abbrev print_word : Bytes → Bytes → Bytes
print_word [] k = 0 ∷ k
print_word (c ∷ s) k = print_word s ((c + 11) ∷ k)

abbrev mutual
  print : Built → Bytes → Bytes
  print (text s) k = print_word s (1 ∷ k)
  print (integer (pos n)) k = 0 ∷ (n + 11) ∷ 2 ∷ k
  print (integer (negsuc n)) k = 0 ∷ (n + 11) ∷ 3 ∷ k
  print (unsigned n) k = 0 ∷ (n + 11) ∷ 4 ∷ k
  print (array vs) k = print_items vs (7 ∷ k)
  print (object fs) k = print_fields fs (7 ∷ k)

  print_items : BuiltItems → Bytes → Bytes
  print_items end k = 5 ∷ k
  print_items (item v vs) k = print_items vs (print v (6 ∷ k))

  print_fields : BuiltFields → Bytes → Bytes
  print_fields stop k = 8 ∷ k
  print_fields (field key v fs) k = print_fields fs (print v (print_word key (9 ∷ k)))

char_code : (c : ℕ) → (leb 11 (c + 11) ≡ true) × (c + 11 - 11 ≡ c)
char_code c = (ground arith, omega arith)

step_char : (c : ℕ) (s : Bytes) (st : Stack) → step (c + 11) (word s st) ≡ word (c ∷ s) st
step_char c s st = rw (char_code c).0 (rw (char_code c).1 refl)

run-print_word : (w k : Bytes) (st : Stack) → run (print_word w k) st ≡ run k (word w st)
run-print_word [] k st = refl
run-print_word (c ∷ s) k st = run-print_word s ((c + 11) ∷ k) st ∙ ap (run k) (step_char c s st)

-- Printing a value and running the tokens pushes it.
mutual
  run-print : (v : Built) (k : Bytes) (st : Stack) → run (print v k) st ≡ run k (value v st)
  run-print (text s) k st = run-print_word s (1 ∷ k) st
  run-print (integer (pos n)) k st = ap (λ top. run k (step 2 top)) (step_char n [] st)
  run-print (integer (negsuc n)) k st = ap (λ top. run k (step 3 top)) (step_char n [] st)
  run-print (unsigned n) k st = ap (λ top. run k (step 4 top)) (step_char n [] st)
  run-print (array vs) k st = run-print_items vs (7 ∷ k) st
  run-print (object fs) k st = run-print_fields fs (7 ∷ k) st

  run-print_items :
      (vs : BuiltItems) (k : Bytes) (st : Stack) → run (print_items vs k) st ≡ run k (items vs st)
  run-print_items end k st = refl
  run-print_items (item v vs) k st =
      run-print_items vs (print v (6 ∷ k)) st ∙ run-print v (6 ∷ k) (items vs st)

  run-print_fields :
      (fs : BuiltFields) (k : Bytes) (st : Stack)
      → run (print_fields fs k) st ≡ run k (fields fs st)
  run-print_fields stop k st = refl
  run-print_fields (field key v fs) k st =
      run-print_fields fs (print v (print_word key (9 ∷ k))) st
      ∙ run-print v (print_word key (9 ∷ k)) (fields fs st)
      ∙ run-print_word key (9 ∷ k) (value v (fields fs st))

abbrev top_value : Stack → Option Built
top_value (value v empty) = some v
top_value _ = none

abbrev elements : BuiltItems → List Built
elements end = []
elements (item v vs) = v ∷ elements vs

abbrev pub token_json : JsonLibrary
token_json = record {
  Json = Built;
  parse = λ t. top_value (run t empty);
  is_object = elim [ object fs ↦ true | _ ↦ false ];
  is_null = λ v. false;
  as_string = elim [ text s ↦ some s | _ ↦ none ];
  as_bool = λ v. none;
  as_integer = elim [ integer z ↦ some z | _ ↦ none ];
  as_unsigned = elim [ unsigned n ↦ some n | _ ↦ none ];
  as_int = elim [ integer z ↦ some z | _ ↦ none ];
  as_array = elim [ array vs ↦ some (elements vs) | _ ↦ none ];
  find = λ v name. elim v [ object fs ↦ lookup name fs | _ ↦ none ];
}

abbrev pub token_writer : JsonWriter
token_writer = record { dump = λ v. some (print v []); is_utf8 = λ s. true }

mutual
  Reads-itself : (v : Built) → Reads token_json v v
  Reads-itself (text s) = refl
  Reads-itself (integer z) = (λ h. refl, λ h. refl)
  Reads-itself (unsigned n) = λ h. refl
  Reads-itself (array vs) = (elements vs, refl, ReadsItems-elements vs)
  Reads-itself (object fs) = (refl, ReadsFields-itself fs)

  ReadsItems-elements : (vs : BuiltItems) → ReadsItems token_json (elements vs) vs
  ReadsItems-elements end = refl
  ReadsItems-elements (item v vs) = (v, elements vs, refl, Reads-itself v, ReadsItems-elements vs)

  ReadsFields-itself : (fs : BuiltFields) → ReadsFields token_json (λ name. lookup name fs) fs
  ReadsFields-itself stop = λ name. refl
  ReadsFields-itself (field key v fs) =
      let same : bytes_eq key key ≡ true = (bytes_eq_iff key key).1 refl in
      (
        (v, rw same refl, Reads-itself v),
        (λ name. lookup name fs, λ name e. rw e refl, ReadsFields-itself fs),
      )

-- One line: no newline, and not empty.
abbrev IsLine : Bytes → Type 0
IsLine t = All (λ c. (c == newline) ≡ false) t × (1 ≤ length t)

char_not_newline : (c : ℕ) → (c + 11 == newline) ≡ false
char_not_newline c = ground arith

print_word-IsLine : (w k : Bytes) → All (λ c. (c == newline) ≡ false) k → IsLine (print_word w k)
print_word-IsLine [] k h = ((refl, h), omega arith)
print_word-IsLine (c ∷ s) k h = print_word-IsLine s ((c + 11) ∷ k) (char_not_newline c, h)

mutual
  print-IsLine_at :
      (v : Built) (k : Bytes) → All (λ c. (c == newline) ≡ false) k → IsLine (print v k)
  print-IsLine_at (text s) k h = print_word-IsLine s (1 ∷ k) (refl, h)
  print-IsLine_at (integer (pos n)) k h = ((refl, (char_not_newline n, (refl, h))), omega arith)
  print-IsLine_at (integer (negsuc n)) k h = ((refl, (char_not_newline n, (refl, h))), omega arith)
  print-IsLine_at (unsigned n) k h = ((refl, (char_not_newline n, (refl, h))), omega arith)
  print-IsLine_at (array vs) k h = print_items-IsLine vs (7 ∷ k) (refl, h)
  print-IsLine_at (object fs) k h = print_fields-IsLine fs (7 ∷ k) (refl, h)

  print_items-IsLine :
      (vs : BuiltItems) (k : Bytes)
      → All (λ c. (c == newline) ≡ false) k
      → IsLine (print_items vs k)
  print_items-IsLine end k h = ((refl, h), omega arith)
  print_items-IsLine (item v vs) k h =
      print_items-IsLine vs (print v (6 ∷ k)) (print-IsLine_at v (6 ∷ k) (refl, h)).0

  print_fields-IsLine :
      (fs : BuiltFields) (k : Bytes)
      → All (λ c. (c == newline) ≡ false) k
      → IsLine (print_fields fs k)
  print_fields-IsLine stop k h = ((refl, h), omega arith)
  print_fields-IsLine (field key v fs) k h =
      print_fields-IsLine fs (print v (print_word key (9 ∷ k)))
        (print-IsLine_at v (print_word key (9 ∷ k)) (print_word-IsLine key (9 ∷ k) (refl, h)).0).0

printed : (v : Built) (t : Bytes) → some (print v []) ≡ some t → print v [] ≡ t
printed v t e = cc

parse-print :
    (v : Built) (t : Bytes) → some (print v []) ≡ some t → top_value (run t empty) ≡ some v
parse-print v t e =
    subst (λ o. top_value (run o empty) ≡ some v) (printed v t e)
      (ap top_value (run-print v [] empty))

print-IsLine : (v : Built) (t : Bytes) → some (print v []) ≡ some t → IsLine t
print-IsLine v t e = subst IsLine (printed v t e) (print-IsLine_at v [] tt)

pub token_laws : JsonLaws token_json token_writer
token_laws = record {
  parse-dump = λ v t e. (v, parse-print v t e, Reads-itself v);
  ascii_is_utf8 = λ s e. refl;
  dump_total = λ v h. refl;
  dump_one_line = λ v t e. print-IsLine v t e;
}
