-- ===== src/Guilds/Data.antt =====
-- shared/model/types/channel.ts and the channel mappings of shared/api/guild-channel-api-client.ts.
use link_lynx_ai.Common.{ℕ, String, Bool, false, List, [], ◌∷◌, Option, none, some, ℤ, decimal}
use link_lynx_ai.Timeline.Data.{User, offline}

pub data ChannelType : Type 0 where
  guild_text direct_message guild_voice group_dm guild_category : ChannelType
  guild_announcement guild_stage_voice guild_forum : ChannelType

pub data OverwriteType : Type 0 where
  role member : OverwriteType

pub record PermissionOverwrite : Type 0 where
  pub id : String
  pub type_ : OverwriteType
  pub allow : ℕ
  pub deny : ℕ

pub record Channel : Type 0 where
  pub id : String
  pub type_ : ChannelType
  pub guild_id : Option String
  pub name : String
  pub topic : Option String
  pub position : ℤ
  pub parent_id : Option String
  pub nsfw : Bool
  pub rate_limit_per_user : ℕ
  pub recipients : Option (List User)
  pub icon : Option (Option String)
  pub last_message_id : Option String
  pub slow_mode_interval : Option ℕ
  pub permission_overwrites : Option (List PermissionOverwrite)

pub data SummaryType : Type 0 where
  guild_text guild_category : SummaryType

-- `CHANNEL_SUMMARY_SCHEMA`; `parent_id` is `none` for null too.
pub record ChannelSummary : Type 0 where
  pub channel_id : ℕ
  pub guild_id : ℕ
  pub name : String
  pub type_ : Option SummaryType
  pub parent_id : Option ℕ
  pub position : Option ℕ
  pub created_at : String

pub record DmRecipient : Type 0 where
  pub user_id : ℕ
  pub display_name : String
  pub avatar_key : Option String

-- `DM_CHANNEL_SUMMARY_SCHEMA`
pub record DmChannelSummary : Type 0 where
  pub channel_id : ℕ
  pub created_at : String
  pub last_message_id : Option ℕ
  pub recipient : DmRecipient

abbrev pub decimal_of : Option ℕ → Option String
decimal_of none = none
decimal_of (some n) = some (decimal n)

abbrev channel_type : Option SummaryType → ChannelType
channel_type (some SummaryType.guild_category) = ChannelType.guild_category
channel_type (some SummaryType.guild_text) = ChannelType.guild_text
channel_type none = ChannelType.guild_text

abbrev pub or_position : Option ℕ → ℤ → ℤ
or_position none position = position
or_position (some n) position = ℤ.pos n

abbrev pub map_channel : ChannelSummary → ℤ → Channel
map_channel summary position = record {
  id = decimal summary.channel_id;
  type_ = channel_type summary.type_;
  guild_id = some (decimal summary.guild_id);
  name = summary.name;
  topic = none;
  position = or_position summary.position position;
  parent_id = decimal_of summary.parent_id;
  nsfw = false;
  rate_limit_per_user = 0;
  recipients = none;
  icon = none;
  last_message_id = none;
  slow_mode_interval = none;
  permission_overwrites = none;
}

abbrev map_dm_recipient : DmRecipient → User
map_dm_recipient recipient = record {
  id = decimal recipient.user_id;
  username = recipient.display_name;
  display_name = recipient.display_name;
  avatar = recipient.avatar_key;
  status = offline;
  custom_status = none;
  bot = false;
}

abbrev pub map_dm_channel : DmChannelSummary → ℤ → Channel
map_dm_channel summary position = record {
  id = decimal summary.channel_id;
  type_ = direct_message;
  guild_id = none;
  name = summary.recipient.display_name;
  topic = none;
  position = position;
  parent_id = none;
  nsfw = false;
  rate_limit_per_user = 0;
  recipients = some (map_dm_recipient summary.recipient ∷ []);
  icon = none;
  last_message_id = decimal_of summary.last_message_id;
  slow_mode_interval = none;
  permission_overwrites = none;
}

-- The spread of `mapChannel` over the current channel: only what `mapChannel` does not set is kept.
abbrev spread_over : Channel → Option Channel → Channel
spread_over c none = c
spread_over c (some current) = record c {
  recipients = current.recipients;
  icon = current.icon;
  slow_mode_interval = current.slow_mode_interval;
  permission_overwrites = current.permission_overwrites;
}

abbrev pub build_updated_channel : ChannelSummary → Option Channel → ℤ → Channel
build_updated_channel summary current fallback_position =
    spread_over (map_channel summary fallback_position) current
