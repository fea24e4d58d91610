-- ===== src/Timeline/Contract.antt =====
-- shared/api/message-contract.ts, shared/lib/exact-json.ts, shared/model/stores/auth-store.ts:
-- what a message of the backend must look like, and the message that the client makes of it.
-- JSON parsing is left out: a `MessageItem` is a payload whose properties have the right types.
use Prim.Native.Char.{code}
use Prim.Native.String
use link_lynx_ai.Common.{
  String, Bool, true, false, not, ◌&&◌, ◌||◌, List, [], map, Option, none, some, leb, or_else,
  if◌then◌else◌, is_empty, trim, ◌==◌, ◌≡◌, ◌≢◌, ◌⊎◌, refl, arith, inl, inr, str_discrete,
}
use link_lynx_ai.Timeline.{same}
use link_lynx_ai.Timeline.Data.{User, offline, Message, MessagePage}

abbrev pub all_digits : String → Bool
all_digits String.[] = true
all_digits (String.◌∷◌ c s) = leb b'0' (code c) && leb (code c) b'9' && all_digits s

-- /^(0|[1-9]\d*)$/
unfoldable pub is_strict_decimal_string : String → Bool
is_strict_decimal_string String.[] = false
is_strict_decimal_string (String.◌∷◌ c s) =
    (code c == b'0' && is_empty s) || (leb b'1' (code c) && leb (code c) b'9' && all_digits s)

-- `MESSAGE_DECIMAL_ID_SCHEMA` and `MESSAGE_VERSION_SCHEMA`.
unfoldable pub is_positive_decimal : String → Bool
is_positive_decimal s = is_strict_decimal_string s && not (same s "0")

pub record MessageItem : Type 0 where
  pub message_id : String
  pub guild_id : String
  pub channel_id : String
  pub author_id : String
  pub content : String
  pub created_at : String
  pub version : String
  pub edited_at : Option String
  pub is_deleted : Option Bool

-- `z.string().trim().min(1)`
unfoldable pub trimmed_text : String → Option String
trimmed_text s = let t = trim s in if is_empty t then none else some t

abbrev trimmed_optional : Option String → Option (Option String)
trimmed_optional none = some none
trimmed_optional (some s) = elim (trimmed_text s) [ none ↦ none | some t ↦ some (some t) ]

abbrev has_positive_decimals : MessageItem → Bool
has_positive_decimals item =
    is_positive_decimal item.message_id
    && is_positive_decimal item.guild_id
    && is_positive_decimal item.channel_id
    && is_positive_decimal item.author_id
    && is_positive_decimal item.version

abbrev with_times : MessageItem → Option String → Option (Option String) → Option MessageItem
with_times item none edited = none
with_times item (some created) none = none
with_times item (some created) (some edited) =
    some (record item { created_at = created; edited_at = edited })

-- `MESSAGE_ITEM_SCHEMA.safeParse`; `none` is a failure.
unfoldable pub parse_message_item : MessageItem → Option MessageItem
parse_message_item item =
    if has_positive_decimals item
    then with_times item (trimmed_text item.created_at) (trimmed_optional item.edited_at)
    else none

pub record AuthStore : Type 0 where
  pub current_user : Option User
  pub current_principal_id : Option String

abbrev fallback_user : String → User
fallback_user author_id = record {
  id = author_id;
  username = String.◌++◌ "user-" author_id;
  display_name = String.◌++◌ "User " author_id;
  avatar = none;
  status = offline;
  custom_status = none;
  bot = false;
}

abbrev own_user : User → Option String → User
own_user user none = user
own_user user (some principal_id) =
    if not (same user.id principal_id) then record user { id = principal_id } else user

abbrev is_id : Option String → String → Bool
is_id none s = false
is_id (some t) s = same t s

abbrev author_from : Option User → Option String → String → User
author_from none principal_id author_id = fallback_user author_id
author_from (some user) principal_id author_id =
    if is_id principal_id author_id || same user.id author_id
    then own_user user principal_id
    else fallback_user author_id

unfoldable pub build_fallback_author : AuthStore → String → User
build_fallback_author auth author_id =
    author_from auth.current_user auth.current_principal_id author_id

unfoldable pub map_message_item : AuthStore → MessageItem → Message
map_message_item auth item = record {
  id = item.message_id;
  channel_id = item.channel_id;
  author = build_fallback_author auth item.author_id;
  content = item.content;
  timestamp = item.created_at;
  version = item.version;
  edited_timestamp = item.edited_at;
  is_deleted = or_else item.is_deleted false;
  message_type = 0;
  pinned = false;
  mention_everyone = false;
  mentions = [];
  attachments = [];
  embeds = [];
  reactions = [];
  components = none;
  flags = none;
}

pub record MessageListResponse : Type 0 where
  pub items : List MessageItem
  pub next_before : Option String
  pub next_after : Option String
  pub has_more : Bool

unfoldable pub map_message_page : AuthStore → MessageListResponse → MessagePage
unfolding map_message_item
map_message_page auth response = record {
  items = map (map_message_item auth) response.items;
  next_before = response.next_before;
  next_after = response.next_after;
  has_more = response.has_more;
}

-- A message of the signed-in user that names her by an id other than the principal id.
abbrev pub IsRenamed : Option User → Option String → String → User → Type 0
IsRenamed user principal_id author_id author =
    (u : User) × (p : String) × (user ≡ some u)
    × (principal_id ≡ some p)
    × (u.id ≡ author_id)
    × (p ≢ author_id)
    × (author ≡ record u { id = p })

author_from-id :
    (user : Option User) (principal_id : Option String) (author_id : String)
    → let author = author_from user principal_id author_id in
      (author.id ≡ author_id) ⊎ IsRenamed user principal_id author_id author
author_from-id none principal_id author_id = inl refl
author_from-id (some u) none author_id = inl (ground arith)
author_from-id (some u) (some p) author_id = elim (str_discrete p author_id) [
  | yes e ↦ inl (ground arith)
  | no n ↦ elim (str_discrete u.id author_id) [
    | yes e ↦ inr (u, p, refl, refl, e, n, ground arith)
    | no m ↦ inl (ground arith)
  ]
]

-- The author of a mapped message has the author id of the item, unless the item names the signed-in
-- user by an id other than the principal id: then the author is that user under the principal id.
pub map_message_item-author_id :
    (auth : AuthStore) (item : MessageItem)
    → let author = (map_message_item auth item).author in
      (author.id ≡ item.author_id)
      ⊎ IsRenamed auth.current_user auth.current_principal_id item.author_id author
unfolding map_message_item build_fallback_author
map_message_item-author_id auth item =
    author_from-id auth.current_user auth.current_principal_id item.author_id
