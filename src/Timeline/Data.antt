-- ===== src/Timeline/Data.antt =====
-- shared/model/types/message.ts, user.ts, server.ts: the data of a message and its author.
-- `referencedMessage` is left out: the code sets it to `null`, and merging copies that of the later
-- snapshot.
use link_lynx_ai.Common.{ℕ, String, Bool, List, Option}
use link_lynx_ai.Timeline.Components.{ActionRow}

pub data UserStatus : Type 0 where
  online idle dnd offline : UserStatus

pub record User : Type 0 where
  pub id : String
  pub username : String
  pub display_name : String
  pub avatar : Option String
  pub status : UserStatus
  pub custom_status : Option String
  pub bot : Bool

pub record Attachment : Type 0 where
  pub id : String
  pub filename : String
  pub size : ℕ
  pub url : String
  pub proxy_url : String
  pub content_type : Option String
  pub width : Option ℕ
  pub height : Option ℕ
  pub spoiler : Bool

pub record EmbedMedia : Type 0 where
  pub url : String
  pub width : Option ℕ
  pub height : Option ℕ

pub record EmbedField : Type 0 where
  pub name : String
  pub value : String
  pub inline : Option Bool

pub record EmbedAuthor : Type 0 where
  pub name : String
  pub url : Option String
  pub icon_url : Option String

pub record EmbedFooter : Type 0 where
  pub text : String
  pub icon_url : Option String

pub record Embed : Type 0 where
  pub title : Option String
  pub description : Option String
  pub url : Option String
  pub color : Option ℕ
  pub thumbnail : Option EmbedMedia
  pub image : Option EmbedMedia
  pub author : Option EmbedAuthor
  pub footer : Option EmbedFooter
  pub fields : Option (List EmbedField)
  pub timestamp : Option String

pub record ReactionEmoji : Type 0 where
  pub id : Option String
  pub name : String
  pub animated : Bool

pub record Reaction : Type 0 where
  pub emoji : ReactionEmoji
  pub count : ℕ
  pub me : Bool

pub record Message : Type 0 where
  pub id : String
  pub channel_id : String
  pub author : User
  pub content : String
  pub timestamp : String
  pub version : String
  pub edited_timestamp : Option String
  pub is_deleted : Bool
  pub message_type : ℕ
  pub pinned : Bool
  pub mention_everyone : Bool
  pub mentions : List User
  pub attachments : List Attachment
  pub embeds : List Embed
  pub reactions : List Reaction
  pub components : Option (List ActionRow)
  pub flags : Option ℕ

-- A `MessagePage` of api-client.ts.
pub record MessagePage : Type 0 where
  pub items : List Message
  pub next_before : Option String
  pub next_after : Option String
  pub has_more : Bool

-- `InfiniteData<MessagePage, string | null>` of the query library.
pub record MessagePagesData : Type 0 where
  pub pages : List MessagePage
  pub page_params : List (Option String)
