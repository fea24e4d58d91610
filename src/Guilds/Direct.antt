-- ===== src/Guilds/Direct.antt =====
-- shared/api/guild-channel-api-client.ts: the methods of `GuildChannelAPIClient` on direct message
-- channels.
use link_lynx_ai.Common.{
  suc, String, List, [], ◌∷◌, Option, none, some, or_else, if◌then◌else◌, length, insert, ℤ, clamp,
  decimal,
}
use link_lynx_ai.Timeline.{same}
use link_lynx_ai.Guilds.Data.{Channel, DmChannelSummary, map_dm_channel}
use link_lynx_ai.Guilds.Cache.{ChannelCache, upsert_dm_channel}
use link_lynx_ai.Guilds.Client.{Outcome, returned, after_response, map_from, index_all}

abbrev next_index : ℤ → ℤ
next_index (ℤ.pos n) = ℤ.pos (suc n)
next_index (ℤ.negsuc n) = ℤ.negsuc n

-- `findIndex` by the id: -1 where there is none.
abbrev pub find_index : String → List Channel → ℤ
find_index x [] = ℤ.negsuc 0
find_index x (c ∷ cs) =
    let rest = find_index x cs in if same c.id x then ℤ.pos 0 else next_index rest

abbrev find_index_in : String → Option (List Channel) → Option ℤ
find_index_in x none = none
find_index_in x (some cs) = some (find_index x cs)

unfoldable pub fetch_dm_channels :
    Outcome (List DmChannelSummary) → ChannelCache → Outcome (List Channel) × ChannelCache
unfolding insert
fetch_dm_channels response cache =
    after_response response
      (λ summaries.
        let channels = map_from map_dm_channel 0 summaries in
        (
          returned channels,
          record cache { dms = some channels; index = index_all channels cache.index },
        ))
      cache

abbrev pub get_dm_channels :
    Outcome (List DmChannelSummary) → ChannelCache → Outcome (List Channel) × ChannelCache
get_dm_channels response cache = elim cache.dms [
  | none ↦ fetch_dm_channels response cache
  | some channels ↦ (returned channels, cache)
]

abbrev store_dm : DmChannelSummary → ℤ → ChannelCache → Outcome Channel × ChannelCache
store_dm summary position cache =
    let channel = map_dm_channel summary position in
    (returned channel, upsert_dm_channel channel cache)

abbrev pub fetched_position : String → Option (List Channel) → ℤ
fetched_position channel_id dms = clamp (or_else (find_index_in channel_id dms) (ℤ.pos 0))

unfoldable pub fetch_dm_channel :
    String → Outcome DmChannelSummary → ChannelCache → Outcome Channel × ChannelCache
unfolding upsert_dm_channel
fetch_dm_channel channel_id response cache =
    after_response response
      (λ summary. store_dm summary (fetched_position channel_id cache.dms) cache) cache

abbrev dm_count : Option (List Channel) → Option ℤ
dm_count none = none
dm_count (some cs) = some (ℤ.pos (length cs))

-- `createDM` behind its guard on the recipient.
unfoldable pub create_dm : Outcome DmChannelSummary → ChannelCache → Outcome Channel × ChannelCache
unfolding upsert_dm_channel decimal
create_dm response cache =
    after_response response
      (λ summary.
        store_dm summary
          (or_else (find_index_in (decimal summary.channel_id) cache.dms)
            (or_else (dm_count cache.dms) (ℤ.pos 0)))
          cache)
      cache
