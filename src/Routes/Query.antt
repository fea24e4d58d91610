-- ===== src/Routes/Query.antt =====
-- shared/config/routes.ts and features/route-guard/model/index.ts: values of the query that are read.
use link_lynx_ai.Common.{String, Bool, false, List, [], ◌∷◌, Option, none, some, if◌then◌else◌}
use link_lynx_ai.Timeline.{same}
use link_lynx_ai.Routes.ReturnTo.{LoginRedirectReason}

pub data SearchParamValue : Type 0 where
  single : String → SearchParamValue
  many : List String → SearchParamValue
  absent : SearchParamValue

pub data GuardKind : Type 0 where
  unauthenticated : GuardKind
  forbidden : GuardKind
  not_found : GuardKind
  service_unavailable : GuardKind

pub data PlaceholderState : Type 0 where
  loading : PlaceholderState
  empty : PlaceholderState
  error : PlaceholderState
  readonly : PlaceholderState
  disabled : PlaceholderState

abbrev pub to_single_value : SearchParamValue → Option String
to_single_value (single s) = some s
to_single_value (many []) = none
to_single_value (many (s ∷ rest)) = some s
to_single_value absent = none

-- The strings of the two unions.
abbrev pub guard_name : GuardKind → String
guard_name GuardKind.unauthenticated = "unauthenticated"
guard_name forbidden = "forbidden"
guard_name not_found = "not-found"
guard_name service_unavailable = "service-unavailable"

abbrev pub placeholder_name : PlaceholderState → String
placeholder_name loading = "loading"
placeholder_name empty = "empty"
placeholder_name error = "error"
placeholder_name readonly = "readonly"
placeholder_name disabled = "disabled"

abbrev guard_kind_of : Option String → Option GuardKind
guard_kind_of none = none
guard_kind_of (some s) =
    if same s "unauthenticated"
    then some GuardKind.unauthenticated
    else if same s "forbidden"
    then some forbidden
    else if same s "not-found"
    then some not_found
    else if same s "service-unavailable"
    then some service_unavailable
    else none

abbrev placeholder_state_of : Option String → Option PlaceholderState
placeholder_state_of none = none
placeholder_state_of (some s) =
    if same s "loading"
    then some loading
    else if same s "empty"
    then some empty
    else if same s "error"
    then some error
    else if same s "readonly"
    then some readonly
    else if same s "disabled"
    then some disabled
    else none

unfoldable pub parse_guard_kind : SearchParamValue → Option GuardKind
parse_guard_kind value = guard_kind_of (to_single_value value)

unfoldable pub parse_placeholder_state : SearchParamValue → Option PlaceholderState
parse_placeholder_state value = placeholder_state_of (to_single_value value)

abbrev reason_of : Option String → Option LoginRedirectReason
reason_of none = none
reason_of (some s) =
    if same s "unauthenticated"
    then some LoginRedirectReason.unauthenticated
    else if same s "session-expired"
    then some LoginRedirectReason.session_expired
    else none

unfoldable pub parse_login_redirect_reason : SearchParamValue → Option LoginRedirectReason
parse_login_redirect_reason value = reason_of (to_single_value value)

abbrev is_one : Option String → Bool
is_one none = false
is_one (some s) = same s "1"

unfoldable pub parse_invite_auto_join_flag : SearchParamValue → Bool
parse_invite_auto_join_flag value = is_one (to_single_value value)
