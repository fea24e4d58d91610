-- ===== src/Guilds/Client.antt =====
-- shared/api/guild-channel-api-client.ts: the methods of `GuildChannelAPIClient` that change what it
-- remembers of channels. The outcome of a request is an argument: the data that its schema accepts,
-- or the error that it throws, before which nothing is changed.
use Prim.Native.Char.{code}
use link_lynx_ai.Common.{
  ℕ, Bool, true, suc, ◌+◌, String, ◌||◌, List, [], ◌∷◌, ◌++◌, Option, none, some, or_else,
  if◌then◌else◌, ltb, length, find?, lookup, insert, remove, str_discrete, trim, is_empty, ℤ,
  decimal,
}
use link_lynx_ai.Timeline.{same}
use link_lynx_ai.Guilds.Data.{Channel, ChannelSummary, map_channel, build_updated_channel}
use link_lynx_ai.Guilds.Cache.{
  ChannelCache, empty_cache, collect_deleted_channel_ids, remove_channels_from_guild_cache,
  upsert_channel_in_guild_cache, remove_guild_from_cache,
}

pub record ApiError : Type 0 where
  pub message : String
  pub status : Option ℕ
  pub code_ : Option String
  pub request_id : Option String
  pub retry_after_ms : Option ℕ

pub data Outcome {ℓ} (A : Type ℓ) : Type ℓ where
  returned : A → Outcome A
  thrown : ApiError → Outcome A

abbrev pub not_found : String → String → ApiError
not_found message code_ = record {
  message = message;
  status = some 404;
  code_ = some code_;
  request_id = none;
  retry_after_ms = none;
}

abbrev pub guild_not_found : ApiError
guild_not_found = not_found "対象のサーバーが見つかりません。" "GUILD_NOT_FOUND"

abbrev pub channel_not_found : ApiError
channel_not_found = not_found "対象のチャンネルが見つかりません。" "CHANNEL_NOT_FOUND"

abbrev pub validation_error : ApiError
validation_error = record {
  message = "入力内容を確認してください。";
  status = some 400;
  code_ = some "VALIDATION_ERROR";
  request_id = none;
  retry_after_ms = none;
}

-- The change that follows a response, or its error.
abbrev pub after_response {ℓ κ} :
    {A : Type ℓ} {B : Type κ}
    → Outcome A
    → (A → Outcome B × ChannelCache)
    → ChannelCache
    → Outcome B × ChannelCache
after_response (thrown e) change cache = (thrown e, cache)
after_response (returned a) change cache = change a

-- `fetchGuilds`; the guilds themselves are not kept.
abbrev fetch_guilds {ℓ} : {A : Type ℓ} → Bool → Outcome A → ChannelCache → Outcome A × ChannelCache
fetch_guilds reset_channel_cache response cache =
    after_response response
      (λ guilds. (returned guilds, if reset_channel_cache then empty_cache else cache)) cache

abbrev pub get_servers {ℓ} : {A : Type ℓ} → Outcome A → ChannelCache → Outcome A × ChannelCache
get_servers response cache = fetch_guilds true response cache

-- `map` with the position of each item.
abbrev pub map_from {ℓ κ} : {A : Type ℓ} {B : Type κ} → (A → ℤ → B) → ℕ → List A → List B
map_from f n [] = []
map_from f n (a ∷ as_) = f a (ℤ.pos n) ∷ map_from f (suc n) as_

abbrev pub index_all : List Channel → List (String × Channel) → List (String × Channel)
index_all [] index = index
index_all (c ∷ cs) index = index_all cs (insert str_discrete c.id c index)

abbrev pub forget_all : List Channel → List (String × Channel) → List (String × Channel)
forget_all [] index = index
forget_all (c ∷ cs) index = forget_all cs (remove str_discrete c.id index)

abbrev pub store_channels : String → List Channel → ChannelCache → ChannelCache
store_channels server_id channels cache = record cache {
  by_guild = insert str_discrete server_id channels cache.by_guild;
  index =
      index_all channels
        (forget_all (or_else (lookup str_discrete server_id cache.by_guild) []) cache.index);
}

unfoldable pub fetch_channels_for_server :
    String → Outcome (List ChannelSummary) → ChannelCache → Outcome (List Channel) × ChannelCache
unfolding insert lookup remove
fetch_channels_for_server server_id response cache =
    after_response response
      (λ summaries.
        let channels = map_from map_channel 0 summaries in
        (returned channels, store_channels server_id channels cache))
      cache

abbrev pub cached_or :
    Option (List Channel)
    → String
    → Outcome (List ChannelSummary)
    → ChannelCache
    → Outcome (List Channel) × ChannelCache
cached_or none server_id response cache = fetch_channels_for_server server_id response cache
cached_or (some channels) server_id response cache = (returned channels, cache)

unfoldable pub get_channels :
    String → Outcome (List ChannelSummary) → ChannelCache → Outcome (List Channel) × ChannelCache
unfolding fetch_channels_for_server trim is_empty lookup
get_channels server_id response cache =
    let normalized = trim server_id in
    if is_empty normalized
    then (returned [], cache)
    else cached_or (lookup str_discrete normalized cache.by_guild) normalized response cache

-- `createChannel` behind its guards.
abbrev append_channel : String → Channel → Option (List Channel) → ChannelCache → ChannelCache
append_channel g channel none cache = cache
append_channel g channel (some cs) cache = record cache {
  by_guild = insert str_discrete g (cs ++ channel ∷ []) cache.by_guild;
}

abbrev count_of : Option (List Channel) → ℕ
count_of none = 0
count_of (some cs) = length cs

unfoldable pub store_created_channel :
    String → Outcome ChannelSummary → ChannelCache → Outcome Channel × ChannelCache
unfolding insert lookup
store_created_channel server_id response cache =
    after_response response
      (λ summary.
        let cached = lookup str_discrete server_id cache.by_guild in
        let channel = map_channel summary (ℤ.pos (count_of cached)) in
        let stored = append_channel server_id channel cached cache in
        (
          returned channel,
          record stored { index = insert str_discrete channel.id channel stored.index },
        ))
      cache

-- The length of a string in UTF-16 code units.
abbrev pub utf16_length : String → ℕ
utf16_length String.[] = 0
utf16_length (String.◌∷◌ c s) = (if ltb 65535 (code c) then 2 else 1) + utf16_length s

abbrev or_find : Option Channel → String → Option (List Channel) → Option Channel
or_find (some c) x cs = some c
or_find none x none = none
or_find none x (some cs) = find? (λ c. same c.id x) cs

abbrev position_of : Option Channel → Option (List Channel) → ℤ
position_of (some c) cs = c.position
position_of none cs = ℤ.pos (count_of cs)

abbrev store_updated : String → ChannelSummary → ChannelCache → Outcome Channel × ChannelCache
store_updated channel_id summary cache =
    let cached = lookup str_discrete (decimal summary.guild_id) cache.by_guild in
    let current = or_find (lookup str_discrete channel_id cache.index) channel_id cached in
    let updated = build_updated_channel summary current (position_of current cached) in
    (
      returned updated,
      upsert_channel_in_guild_cache updated
          (record cache { index = insert str_discrete updated.id updated cache.index }),
    )

abbrev update_named :
    String → Option String → Outcome ChannelSummary → ChannelCache → Outcome Channel × ChannelCache
update_named channel_id none response cache = (thrown validation_error, cache)
update_named channel_id (some name) response cache =
    let normalized = trim name in
    if is_empty normalized || ltb 100 (utf16_length normalized)
    then (thrown validation_error, cache)
    else after_response response (λ summary. store_updated channel_id summary cache) cache

-- `name` is `data.name`, `none` if it is no string.
unfoldable pub update_channel :
    String → Option String → Outcome ChannelSummary → ChannelCache → Outcome Channel × ChannelCache
unfolding insert lookup upsert_channel_in_guild_cache decimal trim is_empty
update_channel channel_id name response cache =
    let normalized = trim channel_id in
    if is_empty normalized
    then (thrown channel_not_found, cache)
    else update_named normalized name response cache

abbrev guild_of : Option Channel → Option String
guild_of none = none
guild_of (some c) = c.guild_id

-- `deleteChannel` up to its request: the ids to delete and the guild.
unfoldable pub plan_deletion : String → ChannelCache → Outcome (List String × Option String)
unfolding lookup collect_deleted_channel_ids trim is_empty
plan_deletion channel_id cache =
    let normalized = trim channel_id in
    let guild_id = guild_of (lookup str_discrete normalized cache.index) in
    if is_empty normalized
    then thrown channel_not_found
    else returned (collect_deleted_channel_ids normalized guild_id cache, guild_id)

-- The rest of `deleteChannel`; what is remembered may have changed meanwhile.
unfoldable pub finish_deletion :
    List String × Option String
    → Outcome (Unit {0})
    → ChannelCache
    → Outcome (Unit {0}) × ChannelCache
unfolding remove_channels_from_guild_cache
finish_deletion plan response cache =
    after_response response
      (λ done. (returned done, remove_channels_from_guild_cache plan.0 plan.1 cache)) cache

unfoldable pub delete_server :
    String → Outcome (Unit {0}) → ChannelCache → Outcome (Unit {0}) × ChannelCache
unfolding remove_guild_from_cache trim is_empty
delete_server server_id response cache =
    let normalized = trim server_id in
    if is_empty normalized
    then (thrown guild_not_found, cache)
    else after_response response (λ done. (returned done, remove_guild_from_cache normalized cache))
        cache
