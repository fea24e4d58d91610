-- ===== src/Stores/Notification.antt =====
-- shared/model/stores/notification-store.ts
use link_lynx_ai.Common.{
  ℕ, ◌+◌, String, Bool, false, not, List, [], Option, some, ◌≡◌, arith, if◌then◌else◌, or_else,
  lookup, insert, remove, lookup-insert, lookup-remove, str_discrete,
}
use link_lynx_ai.Timeline.{same}
use link_lynx_ai.Stores.Guild.{member, toggle, member-toggle}

pub record NotificationState : Type 0 where
  pub unreads : List (String × ℕ)
  pub mentions : List (String × ℕ)
  pub muted_channels : List String
  pub muted_servers : List String
  pub suppress_everyone : Bool
  pub suppress_roles : Bool

abbrev pub initial : NotificationState
initial = record {
  unreads = [];
  mentions = [];
  muted_channels = [];
  muted_servers = [];
  suppress_everyone = false;
  suppress_roles = false;
}

abbrev pub count_of : String → List (String × ℕ) → ℕ
count_of channel_id counts = or_else (lookup str_discrete channel_id counts) 0

unfoldable pub mark_as_read : String → NotificationState → NotificationState
unfolding remove
mark_as_read channel_id s = record s {
  unreads = remove str_discrete channel_id s.unreads;
  mentions = remove str_discrete channel_id s.mentions;
}

unfoldable pub add_unread : String → Option ℕ → NotificationState → NotificationState
unfolding insert lookup
add_unread channel_id count s = record s {
  unreads =
      insert str_discrete channel_id (count_of channel_id s.unreads + or_else count 1) s.unreads;
}

unfoldable pub add_mention : String → NotificationState → NotificationState
unfolding insert lookup
add_mention channel_id s = record s {
  mentions = insert str_discrete channel_id (count_of channel_id s.mentions + 1) s.mentions;
}

unfoldable pub toggle_mute_channel : String → NotificationState → NotificationState
unfolding toggle
toggle_mute_channel channel_id s = record s { muted_channels = toggle channel_id s.muted_channels }

unfoldable pub toggle_mute_server : String → NotificationState → NotificationState
unfolding toggle
toggle_mute_server server_id s = record s { muted_servers = toggle server_id s.muted_servers }

abbrev pub get_unread_count : String → NotificationState → ℕ
get_unread_count channel_id s = count_of channel_id s.unreads

abbrev pub get_mention_count : String → NotificationState → ℕ
get_mention_count channel_id s = count_of channel_id s.mentions

abbrev pub is_channel_muted : String → NotificationState → Bool
is_channel_muted channel_id s = member channel_id s.muted_channels

-- The counts of a channel are what its messages and mentions add up to since it was last read; those
-- of another channel are never touched.
pub get_unread_count_lem :
    (c d : String) (n : ℕ) (s : NotificationState)
    → (get_unread_count d (add_unread c (some n) s)
        ≡ (if same c d then get_unread_count c s + n else get_unread_count d s))
      × (get_mention_count d (add_mention c s)
          ≡ (if same c d then get_mention_count c s + 1 else get_mention_count d s))
      × (get_unread_count d (mark_as_read c s) ≡ (if same c d then 0 else get_unread_count d s))
      × (get_mention_count d (mark_as_read c s) ≡ (if same c d then 0 else get_mention_count d s))
unfolding add_unread add_mention mark_as_read
get_unread_count_lem c d n s = ground (
  arith,
  lookup-insert str_discrete c d (count_of c s.unreads + n) s.unreads,
  lookup-insert str_discrete c d (count_of c s.mentions + 1) s.mentions,
  lookup-remove str_discrete c d s.unreads,
  lookup-remove str_discrete c d s.mentions,
)

-- Toggling the mute of a channel changes whether it is muted, and that of no other channel; toggled
-- twice, it is as before.
pub is_channel_muted_lem :
    (c d : String) (s : NotificationState)
    → let once = toggle_mute_channel c s in
      (is_channel_muted d once
        ≡ (if same c d then not (is_channel_muted c s) else is_channel_muted d s))
      × (is_channel_muted d (toggle_mute_channel c once) ≡ is_channel_muted d s)
unfolding toggle_mute_channel
is_channel_muted_lem c d s = ground (
  arith,
  member-toggle c d s.muted_channels,
  member-toggle c c s.muted_channels,
  member-toggle c d (toggle c s.muted_channels),
)
