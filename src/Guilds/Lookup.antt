-- ===== src/Guilds/Lookup.antt =====
-- shared/api/guild-channel-api-client.ts: what is found after channels have been fetched or changed.
use link_lynx_ai.Common.{
  String, false, List, [], ◌∷◌, Option, none, some, ◌≡◌, refl, arith, ap, if◌then◌else◌, any, find?,
  lookup, str_discrete, lookup-insert_same, decimal, trim, is_empty, ℤ,
}
use link_lynx_ai.Timeline.{same}
use link_lynx_ai.Guilds.Data.{
  Channel, ChannelSummary, DmChannelSummary, map_channel, map_dm_channel,
}
use link_lynx_ai.Guilds.Cache.{ChannelCache, upsert, upsert_dms, upsert_dm_channel}
use link_lynx_ai.Guilds.Client.{
  Outcome, returned, map_from, cached_or, store_channels, fetch_channels_for_server, get_channels,
}
use link_lynx_ai.Guilds.Direct.{find_index, fetched_position, create_dm, fetch_dm_channel}

hit :
    (server_id : String) (response : Outcome (List ChannelSummary)) (cs : List Channel)
    (cache : ChannelCache)
    → is_empty (trim server_id) ≡ false
    → lookup str_discrete (trim server_id) cache.by_guild ≡ some cs
    → get_channels server_id response cache ≡ (returned cs, cache)
unfolding get_channels
hit server_id response cs cache n e = rw (n, e) refl

miss :
    (server_id : String) (response : Outcome (List ChannelSummary)) (cache : ChannelCache)
    → is_empty (trim server_id) ≡ false
    → lookup str_discrete (trim server_id) cache.by_guild ≡ none
    → get_channels server_id response cache
      ≡ fetch_channels_for_server (trim server_id) response cache
unfolding get_channels
miss server_id response cache n e = rw n (ap (λ o. cached_or o (trim server_id) response cache) e)

fetched :
    (server_id : String) (summaries : List ChannelSummary) (cache : ChannelCache)
    → fetch_channels_for_server server_id (returned summaries) cache ≡ (
      returned (map_from map_channel 0 summaries),
      store_channels server_id (map_from map_channel 0 summaries) cache,
    )
unfolding fetch_channels_for_server
fetched server_id summaries cache = refl

-- The channels that a server lists are those of its response, in its order, and until something
-- changes them they are given again, whatever a new request would answer.
pub get_channels_idem :
    (server_id : String) (summaries : List ChannelSummary) (again : Outcome (List ChannelSummary))
    (cache : ChannelCache)
    → is_empty (trim server_id) ≡ false
    → lookup str_discrete (trim server_id) cache.by_guild ≡ none
    → let (result, after) = get_channels server_id (returned summaries) cache in
      (result ≡ returned (map_from map_channel 0 summaries))
      × (get_channels server_id again after ≡ (result, after))
get_channels_idem server_id summaries again cache n e =
    let cs = map_from map_channel 0 summaries in
    let after = store_channels (trim server_id) cs cache in
    let found = lookup-insert_same str_discrete (trim server_id) cs cache.by_guild in
    rw (miss server_id (returned summaries) cache n e, fetched (trim server_id) summaries cache)
      (refl, hit server_id again cs after n found)

find-upsert :
    (c : Channel) (x : String) (cs : List Channel)
    → find? (λ d. same d.id x) (upsert c cs)
      ≡ (if same c.id x then some c else find? (λ d. same d.id x) cs)
find-upsert c x [] = refl
find-upsert c x (d ∷ cs) = ground (arith, find-upsert c x cs)

find_index-none :
    (x : String) (cs : List Channel)
    → any (λ c. same c.id x) cs ≡ false
    → find_index x cs ≡ ℤ.negsuc 0
find_index-none x [] h = refl
find_index-none x (c ∷ cs) h = ground (arith, find_index-none x cs)

abbrev pub position_of : Outcome Channel → Option ℤ
position_of (returned c) = some c.position
position_of (Outcome.thrown e) = none

-- A direct message channel that is opened while the others are remembered, and is not among them,
-- gets the position -1, and not the number of the others.
pub create_dm-position :
    (summary : DmChannelSummary) (cs : List Channel) (cache : ChannelCache)
    → cache.dms ≡ some cs
    → any (λ c. same c.id (decimal summary.channel_id)) cs ≡ false
    → position_of (create_dm (returned summary) cache).0 ≡ some (ℤ.negsuc 0)
unfolding create_dm
create_dm-position summary cs cache e n =
    rw (e, find_index-none (decimal summary.channel_id) cs n) refl

abbrev pub dms_of : Option (List Channel) → List Channel
dms_of none = []
dms_of (some cs) = cs

find-upsert_dms :
    (c : Channel) (x : String) (o : Option (List Channel))
    → find? (λ d. same d.id x) (upsert_dms c o)
      ≡ (if same c.id x then some c else find? (λ d. same d.id x) (dms_of o))
find-upsert_dms c x none = refl
find-upsert_dms c x (some cs) = find-upsert c x cs

-- A direct message channel that is fetched is found under its id, in the index and among the
-- remembered channels, of which the others stay.
pub fetch_dm_channel-found :
    (channel_id x : String) (summary : DmChannelSummary) (cache : ChannelCache)
    → let (result, after) = fetch_dm_channel channel_id (returned summary) cache in
      (c : Channel) × (result ≡ returned c)
      × (lookup str_discrete (decimal summary.channel_id) after.index ≡ some c)
      × (find? (λ d. same d.id x) (dms_of after.dms) ≡ (
          if same (decimal summary.channel_id) x
          then some c
          else find? (λ d. same d.id x) (dms_of cache.dms)))
unfolding fetch_dm_channel upsert_dm_channel
fetch_dm_channel-found channel_id x summary cache =
    let c = map_dm_channel summary (fetched_position channel_id cache.dms) in
    (
      c,
      refl,
      lookup-insert_same str_discrete (decimal summary.channel_id) c cache.index,
      find-upsert_dms c x cache.dms,
    )
