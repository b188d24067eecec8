-- ===== src/Json.antt =====
-- The part of nlohmann/json that the readers in src/api, src/data and src/replay call, as an
-- interface: the library is not part of the repository. `none` of a reading stands for a value of
-- another JSON type.
pub mod Writer
pub mod Tokens
use eventbook.Prelude.{ℕ, Bool, Option, List, Bytes}
use eventbook.Prelude.Int.{ℤ}

pub record JsonLibrary : Type 1 where
  pub Json : Type 0
  -- `json::parse` without exceptions; `none` where the document is discarded.
  pub parse : Bytes → Option Json
  pub is_object : Json → Bool
  pub is_null : Json → Bool
  -- `is_string` and `get<std::string>`, `is_boolean` and `get<bool>`.
  pub as_string : Json → Option Bytes
  pub as_bool : Json → Option Bool
  -- `is_number_integer` and `get<std::int64_t>`.
  pub as_integer : Json → Option ℤ
  -- `is_number_unsigned` and `get<std::uint64_t>`.
  pub as_unsigned : Json → Option ℕ
  -- `get<int>`, where it does not throw.
  pub as_int : Json → Option ℤ
  -- `is_array` and the elements.
  pub as_array : Json → Option (List Json)
  -- `find(field)` of an object.
  pub find : Json → Bytes → Option Json
