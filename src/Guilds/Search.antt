-- ===== src/Guilds/Search.antt =====
-- shared/api/guild-channel-api-client.ts: `GuildChannelAPIClient.getChannel`. The answers of the
-- requests are arguments, and so is the order in which the answers of a batch arrive; nothing else
-- changes what is remembered meanwhile.
use link_lynx_ai.Common.{
  String, Bool, true, false, not, ◌||◌, List, [], ◌∷◌, Option, none, some, if◌then◌else◌, find?,
  keep, lookup, str_discrete, trim, is_empty, is_some, ◌==◌, ℕ,
}
use link_lynx_ai.Timeline.{same}
use link_lynx_ai.Guilds.Data.{Channel, ChannelSummary, DmChannelSummary}
use link_lynx_ai.Guilds.Cache.{ChannelCache}
use link_lynx_ai.Guilds.Client.{
  ApiError, Outcome, returned, thrown, not_found, after_response, fetch_channels_for_server,
}
use link_lynx_ai.Guilds.Direct.{fetch_dm_channels, fetch_dm_channel}
use link_lynx_ai.Guilds.Batches.{batches}

-- `fetchedAnyChannelList` and `firstFetchError`.
pub record Tally : Type 0 where
  pub fetched_any : Bool
  pub first_error : Option ApiError

pub record BatchResult : Type 0 where
  pub found : Option Channel
  pub tally : Tally
  pub cache : ChannelCache

abbrev pub channel_missing : ApiError
channel_missing = not_found "Channel not found." "CHANNEL_NOT_FOUND"

abbrev pub no_tally : Tally
no_tally = record { fetched_any = false; first_error = none }

abbrev first_of : Option ApiError → ApiError → Option ApiError
first_of none e = some e
first_of (some f) e = some f

abbrev pub note : Outcome (List ChannelSummary) → Tally → Tally
note (returned summaries) t = record t { fetched_any = true }
note (thrown e) t = record t { first_error = first_of t.first_error e }

abbrev is_code : String → Option String → Bool
is_code c none = false
is_code c (some d) = same d c

abbrev is_status : ℕ → Option ℕ → Bool
is_status s none = false
is_status s (some t) = t == s

-- The errors of the last request that mean that there is no such channel.
abbrev pub is_missing : ApiError → Bool
is_missing e = is_code "CHANNEL_NOT_FOUND" e.code_ || is_status 404 e.status

abbrev pub failure : Bool → Option ApiError → ApiError
failure fetched_any none = channel_missing
failure fetched_any (some e) = if fetched_any then channel_missing else e

abbrev pub or_search : Option Channel → Tally → ChannelCache → BatchResult → BatchResult
or_search none t cache rest = rest
or_search (some c) t cache rest = record { found = some c; tally = t; cache = cache }

module _ (responses : String → Outcome (List ChannelSummary)) where
  -- The answers, in the order in which they arrive.
  abbrev pub fetch_all : List String → ChannelCache → ChannelCache
  fetch_all [] cache = cache
  fetch_all (s ∷ ss) cache = fetch_all ss (fetch_channels_for_server s (responses s) cache).1

  -- The results of `Promise.allSettled`, in the order of the batch.
  abbrev pub note_all : List String → Tally → Tally
  note_all [] t = t
  note_all (s ∷ ss) t = note_all ss (note (responses s) t)

  module _ (arrive : List String → List String) (channel_id : String) where
    abbrev pub found_in : ChannelCache → Option Channel
    found_in cache = lookup str_discrete channel_id cache.index

    -- Both loops over batches.
    abbrev pub search_batches : List (List String) → Tally → ChannelCache → BatchResult
    search_batches [] t cache = record { found = none; tally = t; cache = cache }
    search_batches (b ∷ bs) t cache =
        let after = fetch_all (arrive b) cache in
        let tally = note_all b t in
        or_search (found_in after) tally after (search_batches bs tally after)

    module _ (dms : Outcome (List DmChannelSummary)) (dm : Outcome DmChannelSummary) where
      abbrev pub give_up : Tally → Outcome Channel × ChannelCache → Outcome Channel × ChannelCache
      give_up t (returned c, cache) = (returned c, cache)
      give_up t (thrown e, cache) =
          if is_missing e
          then (thrown (failure t.fetched_any t.first_error), cache)
          else (thrown e, cache)

      abbrev pub ask_dm : Tally → ChannelCache → Outcome Channel × ChannelCache
      ask_dm t cache = give_up t (fetch_dm_channel channel_id dm cache)

      abbrev pub or_ask_dm : Tally → ChannelCache → Option Channel → Outcome Channel × ChannelCache
      or_ask_dm t cache none = ask_dm t cache
      or_ask_dm t cache (some c) = (returned c, cache)

      abbrev pub among_dms :
          Tally → Outcome (List Channel) × ChannelCache → Outcome Channel × ChannelCache
      among_dms t (returned channels, cache) =
          or_ask_dm t cache (find? (λ c. same c.id channel_id) channels)
      among_dms t (thrown e, cache) = ask_dm t cache

      abbrev pub ask_dms :
          Tally → ChannelCache → Option (List Channel) → Outcome Channel × ChannelCache
      ask_dms t cache none = among_dms t (fetch_dm_channels dms cache)
      ask_dms t cache (some known) = ask_dm t cache

      -- What follows the two loops: `refreshed` is the index once more.
      abbrev pub after_servers :
          Tally → ChannelCache → Option Channel → Outcome Channel × ChannelCache
      after_servers t cache (some c) = (returned c, cache)
      after_servers t cache none = ask_dms t cache cache.dms

      abbrev pub after_second : BatchResult → Option Channel → Outcome Channel × ChannelCache
      after_second r (some c) = (returned c, r.cache)
      after_second r none = after_servers r.tally r.cache (found_in r.cache)

      abbrev pub after_first :
          List String → BatchResult → Option Channel → Outcome Channel × ChannelCache
      after_first cached r (some c) = (returned c, r.cache)
      after_first cached r none =
          let second = search_batches (batches cached) r.tally r.cache in
          after_second second second.found

      abbrev is_cached : ChannelCache → String → Bool
      is_cached cache server_id = is_some (lookup str_discrete server_id cache.by_guild)

      abbrev pub search_servers : List String → ChannelCache → Outcome Channel × ChannelCache
      search_servers server_ids cache =
          let uncached = keep (λ s. not (is_cached cache s)) server_ids in
          let first = search_batches (batches uncached) no_tally cache in
          after_first (keep (is_cached cache) server_ids) first first.found

  abbrev or_search_servers :
      Option Channel
      → Outcome (List String)
      → (List String → ChannelCache → Outcome Channel × ChannelCache)
      → ChannelCache
      → Outcome Channel × ChannelCache
  or_search_servers (some c) servers search cache = (returned c, cache)
  or_search_servers none servers search cache =
      after_response servers (λ ids. search ids cache) cache

  unfoldable pub get_channel :
      (List String → List String)
      → String
      → Outcome (List String)
      → Outcome (List DmChannelSummary)
      → Outcome DmChannelSummary
      → ChannelCache
      → Outcome Channel × ChannelCache
  unfolding batches fetch_channels_for_server fetch_dm_channels fetch_dm_channel trim is_empty
      lookup keep
  get_channel arrive channel_id servers dms dm cache =
      let normalized = trim channel_id in
      if is_empty normalized
      then (thrown channel_missing, cache)
      else or_search_servers (lookup str_discrete normalized cache.index) servers
          (search_servers arrive normalized dms dm) cache
