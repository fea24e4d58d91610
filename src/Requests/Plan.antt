-- ===== src/Requests/Plan.antt =====
-- shared/api/guild-channel-api-client.ts: what a method does before its request is answered. The path
-- of a request is the list of its segments.
use link_lynx_ai.Common.{
  ℕ, String, Bool, true, false, List, [], ◌∷◌, Option, none, some, if◌then◌else◌, is_empty, trim,
}
use link_lynx_ai.Guilds.Client.{ApiError}

pub data Method : Type 0 where
  get post patch put delete : Method

pub data PermissionOverrideValue : Type 0 where
  allow deny inherit : PermissionOverrideValue

-- The values of `can_view` and `can_post` for a role key, or for the user id that is `Number(s)`.
pub data Override : Type 0 where
  role user : String → PermissionOverrideValue → PermissionOverrideValue → Override

pub data Json : Type 0 where
  null : Json
  number : ℕ → Json
  string : String → Json
  boolean : Bool → Json
  strings : List String → Json
  overrides : List Override → Json

-- `encodeURIComponent`; `Number.parseInt(s, 10)` and `Number(s)` where they are natural numbers; the
-- JSON of `Number(s)`.
pub record Platform : Type 0 where
  pub encode : String → String
  pub parse_int : String → Option ℕ
  pub to_number : String → Option ℕ
  pub number_json : String → Json

pub record Request : Type 0 where
  pub method : Method
  pub segments : List String
  pub search : List (String × String)
  pub body : Option (List (String × Json))
  pub expected_status : ℕ

-- A request, an error without a request, or the empty answer without a request.
pub data Plan : Type 0 where
  send : Request → Plan
  refuse : ApiError → Plan
  nothing : Plan

abbrev pub is_blank_id : String → Bool
is_blank_id s = is_empty (trim s)

abbrev pub bad_request : String → ApiError
bad_request message = record {
  message = message;
  status = some 400;
  code_ = some "VALIDATION_ERROR";
  request_id = none;
  retry_after_ms = none;
}

abbrev pub unavailable : String → ApiError
unavailable message = record {
  message = message;
  status = some 501;
  code_ = some "FEATURE_UNAVAILABLE";
  request_id = none;
  retry_after_ms = none;
}

abbrev pub get_json : List String → List (String × String) → Plan
get_json segments search = send (record {
  method = get;
  segments = segments;
  search = search;
  body = none;
  expected_status = 200;
})

abbrev with_body : Method → ℕ → List String → List (String × Json) → Plan
with_body method status segments body = send (record {
  method = method;
  segments = segments;
  search = [];
  body = some body;
  expected_status = status;
})

abbrev pub post_json : List String → List (String × Json) → Plan
post_json segments body = with_body post 201 segments body

abbrev pub patch_json : List String → List (String × Json) → Plan
patch_json segments body = with_body patch 200 segments body

abbrev pub put_json : List String → List (String × Json) → Plan
put_json segments body = with_body put 200 segments body

abbrev pub delete_json : List String → List (String × Json) → Plan
delete_json segments body = with_body delete 200 segments body

abbrev pub delete_no_content : List String → List (String × String) → Plan
delete_no_content segments search = send (record {
  method = delete;
  segments = segments;
  search = search;
  body = none;
  expected_status = 204;
})

-- A field for what is given.
abbrev pub field_of {ℓ} : {A : Type ℓ} → String → (A → Json) → Option A → List (String × Json)
field_of name f none = []
field_of name f (some a) = (name, f a) ∷ []

abbrev pub has_fields : List (String × Json) → Bool
has_fields [] = false
has_fields (f ∷ fields) = true

-- A pair of the query for a text that is not blank.
abbrev pub search_of : String → Option String → List (String × String)
search_of name none = []
search_of name (some s) = if is_blank_id s then [] else (name, trim s) ∷ []

-- `value?.trim() ?? ""`
abbrev pub trim_or_empty : Option String → String
trim_or_empty none = ""
trim_or_empty (some s) = trim s
