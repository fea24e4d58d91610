-- ===== src/Requests/Messages.antt =====
-- shared/api/guild-channel-api-client.ts: the requests for messages and reactions.
use link_lynx_ai.Common.{
  ℕ, String, not, ◌||◌, List, [], ◌∷◌, ◌++◌, Option, none, some, if◌then◌else◌, is_empty, trim,
  or_else, decimal,
}
use link_lynx_ai.Guilds.Client.{ApiError, not_found}
use link_lynx_ai.Requests.Plan.{
  Platform, Plan, refuse, nothing, string, is_blank_id, bad_request, unavailable, get_json,
  post_json, patch_json, delete_json, search_of, trim_or_empty,
}

abbrev limit_search : Option ℕ → List (String × String)
limit_search none = []
limit_search (some n) = ("limit", decimal n) ∷ []

abbrev message_not_valid : ApiError
message_not_valid = bad_request "メッセージ内容を確認してください。"

module _ (platform : Platform) where
  abbrev messages_path : String → String → List String
  messages_path guild_id channel_id =
      if not (is_empty guild_id)
      then "v1"
        ∷ "guilds"
        ∷ platform.encode guild_id
        ∷ "channels"
        ∷ platform.encode channel_id
        ∷ "messages"
        ∷ []
      else "v1" ∷ "dms" ∷ platform.encode channel_id ∷ "messages" ∷ []

  abbrev pub get_messages : Option String → String → Option String → Option String → Option ℕ → Plan
  get_messages guild_id channel_id before after limit =
      if is_blank_id channel_id
      then refuse (not_found "対象のチャンネルが見つかりません。" "CHANNEL_NOT_FOUND")
      else get_json (messages_path (trim_or_empty guild_id) (trim channel_id))
          (search_of "before" before ++ (search_of "after" after ++ limit_search limit))

  -- Without the idempotency key of the headers.
  abbrev pub send_message : Option String → String → String → Plan
  send_message guild_id channel_id content =
      if is_blank_id channel_id || is_blank_id content
      then refuse message_not_valid
      else post_json (messages_path (trim_or_empty guild_id) (trim channel_id))
          (("content", string (trim content)) ∷ [])

  abbrev message_path : Option String → String → String → List String
  message_path channel_guild channel_id message_id =
      "v1"
      ∷ "guilds"
      ∷ platform.encode (or_else channel_guild "")
      ∷ "channels"
      ∷ platform.encode (trim channel_id)
      ∷ "messages"
      ∷ platform.encode (trim message_id)
      ∷ []

  -- `channel_guild` is `guildId` of the channel that `getChannel` gave.
  abbrev pub edit_message : Option String → String → String → String → String → Plan
  edit_message channel_guild channel_id message_id content expected_version =
      if is_blank_id channel_id
        || is_blank_id message_id
        || is_blank_id content
        || is_blank_id expected_version
      then refuse (bad_request "入力内容を確認してください。")
      else patch_json (message_path channel_guild channel_id message_id) (
          ("content", string (trim content))
          ∷ ("expected_version", platform.number_json (trim expected_version))
          ∷ [])

  abbrev pub delete_message : Option String → String → String → String → Plan
  delete_message channel_guild channel_id message_id expected_version =
      if is_blank_id channel_id || is_blank_id message_id || is_blank_id expected_version
      then refuse (bad_request "入力内容を確認してください。")
      else delete_json (message_path channel_guild channel_id message_id)
          (("expected_version", platform.number_json (trim expected_version)) ∷ [])

abbrev pub get_pinned_messages : Plan
get_pinned_messages = nothing

abbrev pub add_reaction : Plan
add_reaction = refuse (unavailable "リアクション追加は v1 では未接続です。")

abbrev pub remove_reaction : Plan
remove_reaction = refuse (unavailable "リアクション解除は v1 では未接続です。")

abbrev pub pin_message : Plan
pin_message = refuse (unavailable "ピン留め操作は v1 では未接続です。")

abbrev pub unpin_message : Plan
unpin_message = refuse (unavailable "ピン留め操作は v1 では未接続です。")
