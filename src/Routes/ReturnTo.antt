-- ===== src/Routes/ReturnTo.antt =====
-- shared/config/routes.ts: where a login, an invite or the settings lead back to.
use Prim.Native.String
use link_lynx_ai.Common.{
  String, Bool, true, false, not, ◌||◌, Option, none, some, or_else, trim, is_empty, if◌then◌else◌,
  List, [], ◌∷◌, ◌++◌,
}
use link_lynx_ai.Timeline.{same}
use link_lynx_ai.Routes.Classify.{
  starts_with, normalize_pathname, classify_app_route, protected, RouteAccessKind,
  is_below_protected,
}

-- The parts of a `URL` that are read.
pub record Location : Type 0 where
  pub origin : String
  pub pathname : String
  pub search : String
  pub hash : String

-- `new URL(s, "https://linklinx.local")`, `none` where it throws, `encodeURIComponent`, and
-- `URLSearchParams.toString`.
pub record Platform : Type 0 where
  pub resolve : String → Option Location
  pub encode : String → String
  pub query_string : List (String × String) → String

pub data LoginRedirectReason : Type 0 where
  unauthenticated : LoginRedirectReason
  session_expired : LoginRedirectReason

pub data SettingsRouteSection : Type 0 where
  profile : SettingsRouteSection
  appearance : SettingsRouteSection

abbrev reason_name : LoginRedirectReason → String
reason_name unauthenticated = "unauthenticated"
reason_name session_expired = "session-expired"

abbrev is_protected : RouteAccessKind → Bool
is_protected protected = true
is_protected _ = false

-- `none` stands for `null` and for `undefined`.
unfoldable pub normalize_invite_resume_code : Option String → Option String
unfolding trim is_empty
normalize_invite_resume_code none = none
normalize_invite_resume_code (some value) =
    if is_empty (trim value) then none else some (trim value)

abbrev return_path : Option Location → Option String
return_path none = none
return_path (some url) =
    if not (same url.origin "https://linklinx.local")
    then none
    else if not (is_protected (classify_app_route url.pathname))
    then none
    else some (String.◌++◌ (String.◌++◌ (normalize_pathname url.pathname) url.search) url.hash)

-- A pair of the query for what is given.
abbrev pair_of : String → Option String → List (String × String)
pair_of name none = []
pair_of name (some value) = (name, value) ∷ []

abbrev reason_value : Option LoginRedirectReason → Option String
reason_value none = none
reason_value (some reason) = some (reason_name reason)

abbrev with_query : String → String → String
with_query path query = if same query "" then path else String.◌++◌ path (String.◌++◌ "?" query)

abbrev settings_path : SettingsRouteSection → String
settings_path profile = "/settings/profile"
settings_path appearance = "/settings/appearance"

module _ (platform : Platform) where
  unfoldable pub normalize_return_to_path : Option String → Option String
  unfolding trim normalize_pathname classify_app_route
  normalize_return_to_path none = none
  normalize_return_to_path (some value) =
      let trimmed = trim value in
      if not (starts_with "/" trimmed) || starts_with "//" trimmed
      then none
      else return_path (platform.resolve trimmed)

  unfoldable pub build_login_route :
      Option String → Option String → Option LoginRedirectReason → String
  unfolding normalize_return_to_path normalize_invite_resume_code
  build_login_route return_to invite_code reason = with_query "/login" (
      platform.query_string (
        pair_of "returnTo" (normalize_return_to_path return_to)
        ++ (pair_of "invite" (normalize_invite_resume_code invite_code)
            ++ pair_of "reason" (reason_value reason))))

  unfoldable pub build_invite_route : String → Bool → String
  unfolding trim
  build_invite_route code_ auto_join =
      with_query (String.◌++◌ "/invite/" (platform.encode (trim code_)))
        (platform.query_string (if auto_join then ("autoJoin", "1") ∷ [] else []))

  abbrev after_invite : Option String → Option String → String
  after_invite none return_path = or_else return_path "/channels/me"
  after_invite (some invite_code) return_path = build_invite_route invite_code true

  unfoldable pub resolve_post_auth_redirect_path : Option String → Option String → String
  unfolding normalize_invite_resume_code normalize_return_to_path build_invite_route
  resolve_post_auth_redirect_path invite_code return_to =
      after_invite (normalize_invite_resume_code invite_code) (normalize_return_to_path return_to)

  abbrev with_return_to : String → Option String → String
  with_return_to pathname none = pathname
  with_return_to pathname (some return_to) =
      String.◌++◌ (String.◌++◌ pathname "?") (platform.query_string (("returnTo", return_to) ∷ []))

  unfoldable pub build_settings_route : SettingsRouteSection → Option String → String
  unfolding normalize_return_to_path
  build_settings_route section return_to =
      with_return_to (settings_path section) (normalize_return_to_path return_to)

-- How the paths that a login or an invite may lead to begin.
abbrev pub is_internal : String → Bool
is_internal s = is_below_protected s || starts_with "/invite/" s
