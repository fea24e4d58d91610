-- ===== src/Permissions.antt =====
-- shared/api/queries/use-action-guard.ts: whether an action is offered, from the permission snapshot
-- that shared/api/api-client.ts describes. The query of the snapshot is a parameter.
mod Tests
use link_lynx_ai.Common.{
  ℕ, String, Bool, true, false, not, ◌&&◌, ◌||◌, Option, none, some, ◌≡◌, ◌≢◌, ◌↔◌, arith,
  if◌then◌else◌, or_else, ◌==◌, str_discrete, ite, trim, is_empty,
}
use link_lynx_ai.Timeline.{same}
use link_lynx_ai.Guilds.Client.{ApiError}

pub data Requirement : Type 0 where
  create_channel create_invite manage_settings moderate manage_channel : Requirement

pub data Status : Type 0 where
  loading allowed forbidden unavailable : Status

pub data ScreenKind : Type 0 where
  forbidden_screen service_unavailable : ScreenKind

pub record GuildPermissions : Type 0 where
  pub can_view : Bool
  pub can_create_channel : Bool
  pub can_create_invite : Bool
  pub can_manage_settings : Bool
  pub can_moderate : Bool

pub record ChannelPermissions : Type 0 where
  pub can_view : Bool
  pub can_post : Bool
  pub can_manage : Bool

pub record PermissionSnapshot : Type 0 where
  pub guild_id : String
  pub channel_id : Option String
  pub guild : GuildPermissions
  pub channel : Option ChannelPermissions

abbrev can_manage_channel : Option ChannelPermissions → Bool
can_manage_channel none = false
can_manage_channel (some c) = c.can_manage

unfoldable pub resolve_permission : PermissionSnapshot → Requirement → Bool
resolve_permission snapshot create_channel = snapshot.guild.can_create_channel
resolve_permission snapshot create_invite = snapshot.guild.can_create_invite
resolve_permission snapshot manage_settings = snapshot.guild.can_manage_settings
resolve_permission snapshot moderate = snapshot.guild.can_moderate
resolve_permission snapshot manage_channel = can_manage_channel snapshot.channel

abbrev pub resolve_action_guard_status : PermissionSnapshot → Requirement → Status
resolve_action_guard_status snapshot requirement =
    if resolve_permission snapshot requirement then allowed else forbidden

abbrev is_503 : Option ℕ → Bool
is_503 none = false
is_503 (some status) = status == 503

abbrev is_unavailable : Option String → Bool
is_unavailable none = false
is_unavailable (some code) = same code "AUTHZ_UNAVAILABLE"

-- `none` is an error that is no `GuildChannelApiError`.
abbrev pub resolve_action_guard_error_status : Option ApiError → Status
resolve_action_guard_error_status none = forbidden
resolve_action_guard_error_status (some error) =
    if is_unavailable error.code_ || is_503 error.status then unavailable else forbidden

abbrev pub get_action_guard_message : Status → Option String
get_action_guard_message allowed = none
get_action_guard_message loading = some "権限を確認中です。"
get_action_guard_message forbidden = some "この操作を行う権限がありません。"
get_action_guard_message unavailable = some "認可基盤が一時的に利用できません。時間をおいて再試行してください。"

abbrev pub get_action_guard_screen_kind : Status → Option ScreenKind
get_action_guard_screen_kind forbidden = some forbidden_screen
get_action_guard_screen_kind unavailable = some service_unavailable
get_action_guard_screen_kind _ = none

-- The state of the query: `data` may be absent once it is settled.
pub data Query : Type 0 where
  pending : Query
  failed : Option ApiError → Query
  succeeded : Option PermissionSnapshot → Query

abbrev of_query : Requirement → Query → Status
of_query requirement pending = loading
of_query requirement (failed error) = resolve_action_guard_error_status error
of_query requirement (succeeded none) = loading
of_query requirement (succeeded (some snapshot)) = resolve_action_guard_status snapshot requirement

abbrev requires_channel : Requirement → Bool
requires_channel manage_channel = true
requires_channel _ = false

-- The target that the query asks about is there.
abbrev pub has_target : String → Requirement → Option String → Bool
has_target server_id requirement channel_id =
    not (is_empty (trim server_id))
    && (not (requires_channel requirement) || not (is_empty (trim (or_else channel_id ""))))

-- The status that `useActionGuard` returns, for the snapshot query of the hook.
unfoldable pub use_action_guard :
    String → Requirement → Option String → Option Bool → Query → Status
unfolding resolve_permission trim is_empty
use_action_guard server_id requirement channel_id enabled query =
    if not (has_target server_id requirement channel_id)
    then forbidden
    else if not (or_else enabled true)
    then loading
    else of_query requirement query

-- What offers an action, in words of the snapshot.
abbrev pub Names : Option String → Type 0
Names none = ⊥
Names (some channel_id) = is_empty (trim channel_id) ≡ false

abbrev pub CanManage : Option ChannelPermissions → Type 0
CanManage none = ⊥
CanManage (some permissions) = permissions.can_manage ≡ true

abbrev pub Permits : PermissionSnapshot → Option String → Requirement → Type 0
Permits snapshot channel_id create_channel = snapshot.guild.can_create_channel ≡ true
Permits snapshot channel_id create_invite = snapshot.guild.can_create_invite ≡ true
Permits snapshot channel_id manage_settings = snapshot.guild.can_manage_settings ≡ true
Permits snapshot channel_id moderate = snapshot.guild.can_moderate ≡ true
Permits snapshot channel_id manage_channel = Names channel_id × CanManage snapshot.channel

abbrev pub PermitsIn : Query → Option String → Requirement → Type 0
PermitsIn (succeeded (some snapshot)) channel_id requirement =
    Permits snapshot channel_id requirement
PermitsIn _ channel_id requirement = ⊥

abbrev pub IsOn : Option Bool → Type 0
IsOn none = Unit
IsOn (some on) = on ≡ true

allowed-Permits :
    (server_id : String) (requirement : Requirement) (channel_id : Option String)
    (enabled : Option Bool) (s : PermissionSnapshot)
    → (use_action_guard server_id requirement channel_id enabled (succeeded (some s)) ≡ allowed)
      ↔ ((is_empty (trim server_id) ≡ false) × IsOn enabled × Permits s channel_id requirement)
unfolding use_action_guard resolve_permission is_empty
allowed-Permits g create_channel c on s = ground arith
allowed-Permits g create_invite c on s = ground arith
allowed-Permits g manage_settings c on s = ground arith
allowed-Permits g moderate c on s = ground arith
allowed-Permits g manage_channel none on s = ground arith
allowed-Permits g manage_channel (some c) on s = ground arith

-- An action is offered exactly if the server is named, the guard is not switched off, and a snapshot
-- has arrived that has the permission of the action: for the management of a channel the channel is
-- named too and the snapshot lets manage it. A pending or failed query offers nothing. A message is
-- shown exactly where the action is not offered.
pub use_action_guard-allowed :
    (server_id : String) (requirement : Requirement) (channel_id : Option String)
    (enabled : Option Bool) (query : Query)
    → let status = use_action_guard server_id requirement channel_id enabled query in
      ((status ≡ allowed) ↔ (
        (is_empty (trim server_id) ≡ false)
        × IsOn enabled
        × PermitsIn query channel_id requirement))
      × ((get_action_guard_message status ≡ none) ↔ (status ≡ allowed))
unfolding use_action_guard
use_action_guard-allowed g r c on pending = ground arith
use_action_guard-allowed g r c on (failed e) = ground arith
use_action_guard-allowed g r c on (succeeded none) = ground arith
use_action_guard-allowed g r c on (succeeded (some s)) = (allowed-Permits g r c on s, ground arith)
