-- ===== src/Requests/Channels.antt =====
-- shared/api/guild-channel-api-client.ts: the requests for servers, channels, invites and direct
-- message channels.
use link_lynx_ai.Common.{
  ℕ, String, Bool, false, not, ◌&&◌, ◌||◌, List, [], ◌∷◌, ◌++◌, Option, none, some, if◌then◌else◌,
  is_empty, trim, ◌==◌, ltb, decimal, leb,
}
use link_lynx_ai.Guilds.Client.{
  not_found, guild_not_found, channel_not_found, validation_error, utf16_length,
}
use link_lynx_ai.Requests.Plan.{
  Platform, Plan, refuse, nothing, Json, null, number, string, is_blank_id, get_json, post_json,
  patch_json, delete_no_content, field_of, has_fields, search_of, trim_or_empty,
}

-- A number that is given and not positive; other numbers that are no integers are refused alike.
abbrev is_bad_number : Option ℕ → Bool
is_bad_number none = false
is_bad_number (some n) = n == 0

-- `Number.isInteger(n) && n > 0`
abbrev positive : Option ℕ → Option ℕ
positive none = none
positive (some n) = if n == 0 then none else some n

abbrev pub get_servers : Plan
get_servers = get_json ("guilds" ∷ []) []

abbrev pub get_server : String → Plan
get_server server_id =
    if is_blank_id server_id
    then refuse (not_found "Server not found." "GUILD_NOT_FOUND")
    else get_servers

abbrev pub create_server : String → Plan
create_server name =
    if is_blank_id name
    then refuse validation_error
    else post_json ("guilds" ∷ []) (("name", string (trim name)) ∷ [])

abbrev is_bad_name : Option String → Bool
is_bad_name none = false
is_bad_name (some s) = is_blank_id s || ltb 100 (utf16_length (trim s))

abbrev icon_key : Option String → Json
icon_key none = null
icon_key (some s) = if is_blank_id s then null else string (trim s)

abbrev update_server_body : Option String → Option (Option String) → List (String × Json)
update_server_body name icon =
    field_of "name" (λ s. string (trim s)) name ++ field_of "icon_key" icon_key icon

abbrev pub get_dm_channels : Plan
get_dm_channels = get_json ("users" ∷ "me" ∷ "dms" ∷ []) []

module _ (platform : Platform) where
  -- Where the channels of the guild are not remembered.
  abbrev pub get_channels : String → Plan
  get_channels server_id =
      if is_blank_id server_id
      then nothing
      else get_json ("guilds" ∷ platform.encode (trim server_id) ∷ "channels" ∷ []) []

  -- The guard of the method and the request of `fetchDmChannel`, the last that it sends.
  abbrev pub get_channel : String → Plan
  get_channel channel_id =
      if is_blank_id channel_id
      then refuse channel_not_found
      else get_json ("v1" ∷ "dms" ∷ platform.encode (trim channel_id) ∷ []) []

  abbrev pub get_permission_snapshot : String → Option String → Plan
  get_permission_snapshot server_id channel_id =
      if is_blank_id server_id
      then refuse (not_found "Server not found." "GUILD_NOT_FOUND")
      else get_json ("guilds" ∷ platform.encode (trim server_id) ∷ "permission-snapshot" ∷ [])
          (search_of "channel_id" channel_id)

  -- `icon` is `some none` for `null`.
  abbrev pub update_server : String → Option String → Option (Option String) → Plan
  update_server server_id name icon =
      if is_blank_id server_id
      then refuse guild_not_found
      else if is_bad_name name
      then refuse validation_error
      else if not (has_fields (update_server_body name icon))
      then refuse validation_error
      else patch_json ("guilds" ∷ platform.encode (trim server_id) ∷ [])
          (update_server_body name icon)

  abbrev pub delete_server : String → Plan
  delete_server server_id =
      if is_blank_id server_id
      then refuse guild_not_found
      else delete_no_content ("guilds" ∷ platform.encode (trim server_id) ∷ []) []

  -- `parsedParentId`; `none` where the text is refused.
  abbrev parent_number : String → Option (Option ℕ)
  parent_number parent_id =
      if is_empty parent_id then some none else given (positive (platform.parse_int parent_id))
    where
      given : Option ℕ → Option (Option ℕ)
      given none = none
      given (some n) = some (some n)

  abbrev channel_body : ℕ → String → Option ℕ → List (String × Json)
  channel_body type_ name parent =
      ("name", string name)
      ∷ (if type_ == 4 then ("type", string "guild_category") ∷ [] else text_body parent)
    where
      text_body : Option ℕ → List (String × Json)
      text_body none = []
      text_body (some n) = ("type", string "guild_text") ∷ ("parent_id", number n) ∷ []

  abbrev send_channel : String → ℕ → String → Option (Option ℕ) → Plan
  send_channel server_id type_ name none = refuse validation_error
  send_channel server_id type_ name (some parent) =
      post_json ("guilds" ∷ platform.encode server_id ∷ "channels" ∷ [])
        (channel_body type_ name parent)

  abbrev pub create_channel : String → String → ℕ → Option String → Plan
  create_channel server_id name type_ parent_id =
      if is_blank_id server_id
      then refuse guild_not_found
      else if not (type_ == 0 || type_ == 4)
      then refuse validation_error
      else if is_blank_id name
      then refuse validation_error
      else if type_ == 4 && not (is_empty (trim_or_empty parent_id))
      then refuse validation_error
      else send_channel (trim server_id) type_ (trim name) (parent_number (trim_or_empty parent_id))

  abbrev send_invite : String → Option ℕ → Option ℕ → Option ℕ → Plan
  send_invite server_id none max_age max_uses = refuse validation_error
  send_invite server_id (some channel) max_age max_uses =
      if is_bad_number max_age || is_bad_number max_uses
      then refuse validation_error
      else post_json ("v1" ∷ "guilds" ∷ platform.encode server_id ∷ "invites" ∷ []) (
          ("channel_id", number channel)
          ∷ (field_of "max_age_seconds" number max_age ++ field_of "max_uses" number max_uses))

  abbrev pub create_invite : String → String → Option ℕ → Option ℕ → Plan
  create_invite server_id channel_id max_age max_uses =
      if is_blank_id server_id
      then refuse guild_not_found
      else send_invite (trim server_id) (positive (platform.parse_int (trim channel_id))) max_age
          max_uses

  -- The query of `getInvites` and `revokeInvite`; `none` where the channel is refused.
  abbrev channel_search : String → Option (List (String × String))
  channel_search channel_id =
      if is_empty channel_id then some [] else given (positive (platform.parse_int channel_id))
    where
      given : Option ℕ → Option (List (String × String))
      given none = none
      given (some n) = some (("channel_id", decimal n) ∷ [])

  abbrev list_invites : String → Option (List (String × String)) → Plan
  list_invites server_id none = refuse validation_error
  list_invites server_id (some search) =
      get_json ("v1" ∷ "guilds" ∷ platform.encode server_id ∷ "invites" ∷ []) search

  abbrev pub get_invites : String → Option String → Plan
  get_invites server_id channel_id =
      if is_blank_id server_id
      then refuse guild_not_found
      else list_invites (trim server_id) (channel_search (trim_or_empty channel_id))

  abbrev delete_invite : String → String → Option (List (String × String)) → Plan
  delete_invite server_id invite_code none = refuse validation_error
  delete_invite server_id invite_code (some search) =
      delete_no_content
        ("v1" ∷ "guilds" ∷ platform.encode server_id ∷ "invites" ∷ platform.encode invite_code ∷ [])
        search

  abbrev pub revoke_invite : String → String → Option String → Plan
  revoke_invite server_id invite_code channel_id =
      if is_blank_id server_id
      then refuse guild_not_found
      else if is_blank_id invite_code
      then refuse validation_error
      else delete_invite (trim server_id) (trim invite_code)
          (channel_search (trim_or_empty channel_id))

  -- `Number.MAX_SAFE_INTEGER` is 2 ^ 53 - 1.
  abbrev send_dm : Option ℕ → Plan
  send_dm none = refuse validation_error
  send_dm (some n) =
      if n == 0 || not (leb n 9007199254740991)
      then refuse validation_error
      else post_json ("users" ∷ "me" ∷ "dms" ∷ []) (("recipient_id", number n) ∷ [])

  abbrev pub create_dm : String → Plan
  create_dm recipient_id =
      if is_blank_id recipient_id
      then refuse validation_error
      else send_dm (platform.to_number (trim recipient_id))

  abbrev update_channel_named : String → Option String → Plan
  update_channel_named channel_id none = refuse validation_error
  update_channel_named channel_id (some name) =
      if is_bad_name (some name)
      then refuse validation_error
      else patch_json ("channels" ∷ platform.encode channel_id ∷ [])
          (("name", string (trim name)) ∷ [])

  -- `name` is `none` if it is no string.
  abbrev pub update_channel : String → Option String → Plan
  update_channel channel_id name =
      if is_blank_id channel_id
      then refuse channel_not_found
      else update_channel_named (trim channel_id) name

  abbrev pub delete_channel : String → Plan
  delete_channel channel_id =
      if is_blank_id channel_id
      then refuse channel_not_found
      else delete_no_content ("channels" ∷ platform.encode (trim channel_id) ∷ []) []
