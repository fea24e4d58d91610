-- ===== src/Routes/Tests.antt =====
-- Runs of the routes on concrete paths.
use Prim.Native.String
use link_lynx_ai.Common.{
  String, List, [], ◌∷◌, Option, none, some, if◌then◌else◌, ◌≡◌, refl, trim, is_empty, str_discrete,
}
use link_lynx_ai.Routes.Classify.{starts_with}
use link_lynx_ai.Routes.Selection.{parse_guild_channel_route, build_channel_route}
use link_lynx_ai.Routes.RoundTrip.{is_segment, parse_guild_channel_route-build}
use link_lynx_ai.Routes.ReturnTo.{Location, Platform, normalize_return_to_path, build_login_route}
use link_lynx_ai.Routes.Query.{GuardKind, many, parse_guard_kind}

abbrev here : String → Option Location
here s =
    if starts_with "/" s
    then some (record { origin = "https://linklinx.local"; pathname = s; search = ""; hash = "" })
    else none

abbrev query_of : List (String × String) → String
query_of [] = ""
query_of ((k, v) ∷ rest) = String.◌++◌ (String.◌++◌ k "=") (String.◌++◌ v (query_of rest))

abbrev platform : Platform
platform = record { resolve = here; encode = λ s. s; query_string = query_of }

outside : normalize_return_to_path platform (some "//evil.example/channels") ≡ none
unfolding normalize_return_to_path
outside = refl

login_again : normalize_return_to_path platform (some "/login") ≡ none
unfolding normalize_return_to_path str_discrete
login_again = refl

login_test :
    build_login_route platform (some "/settings/profile") none none
    ≡ "/login?returnTo=/settings/profile"
unfolding build_login_route str_discrete
login_test = refl

selected :
    parse_guild_channel_route (λ s. some s) "/channels/10/"
    ≡ some (record { guild_id = "10"; channel_id = none })
unfolding parse_guild_channel_route str_discrete
selected = refl

direct : parse_guild_channel_route (λ s. some s) "/channels/Me/20" ≡ none
unfolding parse_guild_channel_route str_discrete
direct = refl

parse_guild_channel_route-build_example :
    parse_guild_channel_route (λ s. some s) (build_channel_route (λ s. s) " 10" "20")
    ≡ some (record { guild_id = "10"; channel_id = some "20" })
unfolding trim is_empty is_segment
parse_guild_channel_route-build_example =
    parse_guild_channel_route-build (λ s. s) (λ s. some s) " 10" "20" refl refl refl refl refl refl
      refl refl refl

parse_guard_kind_test : parse_guard_kind (many ("forbidden" ∷ "x" ∷ [])) ≡ some GuardKind.forbidden
unfolding parse_guard_kind str_discrete
parse_guard_kind_test = refl
