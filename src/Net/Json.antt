-- ===== src/Net/Json.antt =====
-- JSON payloads as `JSON.parse` gives them, and the zod schemas that read their properties.
use link_lynx_ai.Common.{
  ℕ, String, Bool, false, Option, none, some, ite, str_discrete, trim, is_empty, if◌then◌else◌, ltb,
  leb, ◌&&◌,
}

-- Numbers other than the non-negative integers are `fraction`.
mutual
  pub data Json : Type 0 where
    null : Json
    bool : Bool → Json
    num : ℕ → Json
    fraction : Json
    str : String → Json
    arr : Items → Json
    obj : Fields → Json

  pub data Items : Type 0 where
    nil : Items
    cons : Json → Items → Items

  pub data Fields : Type 0 where
    end : Fields
    field : String → Json → Fields → Fields

unfoldable pub get_field : String → Fields → Option Json
get_field k end = none
get_field k (field j v fs) = ite (str_discrete j k) (some v) (get_field k fs)

-- A property of an object; any other payload has none.
unfoldable pub prop : String → Json → Option Json
unfolding get_field
prop k (obj fs) = get_field k fs
prop k _ = none

-- `z.string().trim().min(1)`
unfoldable pub trimmed_text : Option Json → Option String
trimmed_text (some (str s)) = let t = trim s in if is_empty t then none else some t
trimmed_text (some _) = none
trimmed_text none = none

-- `z.literal(true)`
abbrev pub is_true : Option Json → Bool
is_true (some (bool b)) = b
is_true (some _) = false
is_true none = false

-- `z.number().int().positive()`: a safe integer.
abbrev pub positive_int : Option Json → Option ℕ
positive_int (some (num n)) = if ltb 0 n && leb n 9007199254740991 then some n else none
positive_int (some _) = none
positive_int none = none

abbrev pub any_text : Option Json → Option String
any_text (some (str s)) = some s
any_text (some _) = none
any_text none = none

infixl 5 ◌>>=◌
abbrev pub ◌>>=◌ {ℓ κ} : {A : Type ℓ} {B : Type κ} → Option A → (A → Option B) → Option B
none >>= k = none
some a >>= k = k a

-- The body of every error response of the backend.
pub record BackendError : Type 0 where
  pub code : String
  pub message : String
  pub request_id : String

-- `AUTH_ERROR_RESPONSE_SCHEMA`, `API_ERROR_RESPONSE_SCHEMA`, `BACKEND_ERROR_RESPONSE_SCHEMA`
unfoldable pub parse_backend_error : Json → Option BackendError
unfolding trimmed_text prop
parse_backend_error payload = do
  code ← trimmed_text (prop "code" payload)
  message ← trimmed_text (prop "message" payload)
  request_id ← trimmed_text (prop "request_id" payload)
  some (record { code = code; message = message; request_id = request_id })
