-- ===== src/Routes/Selection.antt =====
-- shared/config/routes.ts: the guild and the channel that a path selects, and the paths that select.
use Prim.Native.Char.{Char, code}
use Prim.Native.String
use link_lynx_ai.Common.{
  after_prefix, String, Bool, false, not, ◌&&◌, ◌||◌, Option, none, some, trim, is_empty,
  if◌then◌else◌, List, [], ◌∷◌, ◌==◌, any, is_some,
}
use link_lynx_ai.Routes.Classify.{normalize_pathname}

pub record GuildChannelRouteSelection : Type 0 where
  pub guild_id : String
  pub channel_id : Option String

-- A character in front of the first segment.
abbrev pub onto_first : Char → List String → List String
onto_first c [] = String.◌∷◌ c "" ∷ []
onto_first c (s ∷ segments) = String.◌∷◌ c s ∷ segments

-- `s.split("/")`
unfoldable pub split_path : String → List String
split_path String.[] = "" ∷ []
split_path (String.◌∷◌ c s) =
    let rest = split_path s in if code c == b'/' then "" ∷ rest else onto_first c rest

-- `s.toLowerCase() === "me"`: no other letter has m or e as its lower case.
abbrev pub is_me : String → Bool
is_me (String.◌∷◌ a (String.◌∷◌ b String.[])) =
    (code a == b'm' || code a == b'M') && (code b == b'e' || code b == b'E')
is_me _ = false

-- `none` where `decodeURIComponent` throws.
abbrev pub present : Option String → Option String
present none = none
present (some s) = if is_empty (trim s) then none else some s

abbrev with_channel : String → Option String → Option GuildChannelRouteSelection
with_channel guild_id none = none
with_channel guild_id (some channel_id) =
    some (record { guild_id = guild_id; channel_id = some channel_id })

module _ (decode : String → Option String) where
  abbrev is_bad_segment : String → Bool
  is_bad_segment segment = is_empty segment || not (is_some (decode segment))

  abbrev select_channel : Option String → List String → Option GuildChannelRouteSelection
  select_channel none rest = none
  select_channel (some guild_id) [] = some (record { guild_id = guild_id; channel_id = none })
  select_channel (some guild_id) (raw_channel_id ∷ rest) =
      with_channel guild_id (present (decode raw_channel_id))

  abbrev select_guild : String → List String → Option GuildChannelRouteSelection
  select_guild raw_guild_id rest =
      if any is_bad_segment (raw_guild_id ∷ rest)
      then none
      else if is_me raw_guild_id
      then none
      else select_channel (present (decode raw_guild_id)) rest

  -- One or two segments; `split` gives one at least.
  abbrev pub select_route : List String → Option GuildChannelRouteSelection
  select_route [] = none
  select_route (g ∷ []) = select_guild g []
  select_route (g ∷ c ∷ []) = select_guild g (c ∷ [])
  select_route (g ∷ c ∷ d ∷ rest) = none

  abbrev pub select_below : Option String → Option GuildChannelRouteSelection
  select_below none = none
  select_below (some rest) = select_route (split_path rest)

  unfoldable pub parse_guild_channel_route : String → Option GuildChannelRouteSelection
  unfolding normalize_pathname trim after_prefix split_path is_empty
  parse_guild_channel_route pathname =
      select_below (after_prefix "/channels/" (normalize_pathname (trim pathname)))

module _ (encode : String → String) where
  unfoldable pub build_guild_route : String → String
  unfolding trim
  build_guild_route guild_id = String.◌++◌ "/channels/" (encode (trim guild_id))

  unfoldable pub build_channel_route : String → String → String
  unfolding trim
  build_channel_route guild_id channel_id =
      String.◌++◌ (String.◌++◌ (String.◌++◌ "/channels/" (encode (trim guild_id))) "/")
        (encode (trim channel_id))

  unfoldable pub build_moderation_queue_route : String → String
  unfolding trim
  build_moderation_queue_route guild_id =
      String.◌++◌ (String.◌++◌ "/channels/" (encode (trim guild_id))) "/moderation"

  unfoldable pub build_moderation_report_route : String → String → String
  unfolding trim
  build_moderation_report_route guild_id report_id =
      String.◌++◌ (String.◌++◌ (String.◌++◌ "/channels/" (encode (trim guild_id))) "/moderation/")
        (encode (trim report_id))
