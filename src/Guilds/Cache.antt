-- ===== src/Guilds/Cache.antt =====
-- shared/api/guild-channel-api-client.ts: `channelCacheByGuild`, `channelIndex` and
-- `dmChannelsCache`, and the operations on them. A request that fails throws before any of its
-- changes, so the operations are called with what was received.
use link_lynx_ai.Common.{
  ℕ, zero, suc, String, Bool, true, false, not, ◌&&◌, List, [], ◌∷◌, Option, none, some,
  if◌then◌else◌, ◌==◌, length, any, keep, lookup, insert, remove, str_discrete,
}
use link_lynx_ai.Timeline.{same}
use link_lynx_ai.Guilds.Data.{Channel}

pub record ChannelCache : Type 0 where
  pub by_guild : List (String × List Channel)
  pub index : List (String × Channel)
  pub dms : Option (List Channel)

abbrev pub empty_cache : ChannelCache
empty_cache = record { by_guild = []; index = []; dms = none }

abbrev pub has : String → List String → Bool
has x ids = any (same x) ids

abbrev pub has_parent : Option String → List String → Bool
has_parent none ids = false
has_parent (some p) ids = has p ids

-- The test of the inner loop of `collectDeletedChannelIds`.
abbrev pub is_new_child : Channel → List String → Bool
is_new_child c ids = has_parent c.parent_id ids && not (has c.id ids)

abbrev pub visit : Channel → List String × Bool → List String × Bool
visit c s = if is_new_child c s.0 then (c.id ∷ s.0, true) else s

-- The inner loop, over the ids (the latest first) and `foundChild`.
abbrev pub find_children : List Channel → List String × Bool → List String × Bool
find_children [] s = s
find_children (c ∷ cs) s = find_children cs (visit c s)

-- The outer loop, with fuel.
unfoldable pub collect_children : ℕ → List Channel → List String → List String
collect_children zero cs ids = ids
collect_children (suc n) cs ids =
    let s = find_children cs (ids, false) in
    let rest = collect_children n cs s.0 in if s.1 then rest else s.0

-- A round that goes on adds the id of a cached channel, so there are at most as many.
abbrev descendants : String → Option (List Channel) → List String
descendants channel_id none = channel_id ∷ []
descendants channel_id (some cs) = collect_children (suc (length cs)) cs (channel_id ∷ [])

abbrev channels_of : Option String → ChannelCache → Option (List Channel)
channels_of none cache = none
channels_of (some guild_id) cache = lookup str_discrete guild_id cache.by_guild

unfoldable pub collect_deleted_channel_ids : String → Option String → ChannelCache → List String
unfolding collect_children lookup
collect_deleted_channel_ids channel_id guild_id cache =
    descendants channel_id (channels_of guild_id cache)

abbrev pub remove_all : List String → List (String × Channel) → List (String × Channel)
remove_all [] index = index
remove_all (x ∷ ids) index = remove_all ids (remove str_discrete x index)

abbrev pub without : List String → List Channel → List Channel
without ids cs = keep (λ c. not (has c.id ids)) cs

abbrev shortened : List String → List Channel → List Channel
shortened ids cs = if length (without ids cs) == length cs then cs else without ids cs

abbrev filter_guilds : List String → List (String × List Channel) → List (String × List Channel)
filter_guilds ids [] = []
filter_guilds ids ((g, cs) ∷ rest) = (g, shortened ids cs) ∷ filter_guilds ids rest

abbrev filter_guild :
    String
    → List String
    → Option (List Channel)
    → List (String × List Channel)
    → List (String × List Channel)
filter_guild g ids none entries = entries
filter_guild g ids (some cs) entries = insert str_discrete g (without ids cs) entries

unfoldable pub remove_channels_from_guild_cache :
    List String → Option String → ChannelCache → ChannelCache
unfolding lookup insert remove keep
remove_channels_from_guild_cache ids none cache = record cache {
  index = remove_all ids cache.index;
  by_guild = filter_guilds ids cache.by_guild;
}
remove_channels_from_guild_cache ids (some g) cache = record cache {
  index = remove_all ids cache.index;
  by_guild = filter_guild g ids (lookup str_discrete g cache.by_guild) cache.by_guild;
}

-- The first guild with the channel loses it.
abbrev filter_first : String → List (String × List Channel) → List (String × List Channel)
filter_first x [] = []
filter_first x ((g, cs) ∷ rest) =
    let others = filter_first x rest in
    if length (without (x ∷ []) cs) == length cs
    then (g, cs) ∷ others
    else (g, without (x ∷ []) cs) ∷ rest

-- Not called in the client.
unfoldable remove_channel_from_guild_cache : String → Option String → ChannelCache → ChannelCache
unfolding lookup insert remove keep
remove_channel_from_guild_cache channel_id none cache = record cache {
  index = remove str_discrete channel_id cache.index;
  by_guild = filter_first channel_id cache.by_guild;
}
remove_channel_from_guild_cache channel_id (some g) cache = record cache {
  index = remove str_discrete channel_id cache.index;
  by_guild = filter_guild g (channel_id ∷ []) (lookup str_discrete g cache.by_guild) cache.by_guild;
}

-- `findIndex` and the copy with one item replaced, or the new item at the end.
abbrev pub upsert : Channel → List Channel → List Channel
upsert channel [] = channel ∷ []
upsert channel (c ∷ cs) =
    let rest = upsert channel cs in if same c.id channel.id then channel ∷ cs else c ∷ rest

abbrev upsert_in :
    Channel
    → String
    → Option (List Channel)
    → List (String × List Channel)
    → List (String × List Channel)
upsert_in channel g none entries = entries
upsert_in channel g (some cs) entries = insert str_discrete g (upsert channel cs) entries

abbrev upsert_for : Channel → Option String → ChannelCache → ChannelCache
upsert_for channel none cache = cache
upsert_for channel (some g) cache = record cache {
  by_guild = upsert_in channel g (lookup str_discrete g cache.by_guild) cache.by_guild;
}

unfoldable pub upsert_channel_in_guild_cache : Channel → ChannelCache → ChannelCache
unfolding lookup insert
upsert_channel_in_guild_cache channel cache = upsert_for channel channel.guild_id cache

abbrev pub is_of_guild : String → Option String → Bool
is_of_guild server_id none = false
is_of_guild server_id (some g) = same g server_id

unfoldable pub remove_guild_from_cache : String → ChannelCache → ChannelCache
unfolding remove keep
remove_guild_from_cache server_id cache = record cache {
  by_guild = remove str_discrete server_id cache.by_guild;
  index = keep (λ e. not (is_of_guild server_id e.1.guild_id)) cache.index;
}

abbrev pub upsert_dms : Channel → Option (List Channel) → List Channel
upsert_dms channel none = channel ∷ []
upsert_dms channel (some cs) = upsert channel cs

unfoldable pub upsert_dm_channel : Channel → ChannelCache → ChannelCache
unfolding insert
upsert_dm_channel channel cache = record cache {
  index = insert str_discrete channel.id channel cache.index;
  dms = some (upsert_dms channel cache.dms);
}
