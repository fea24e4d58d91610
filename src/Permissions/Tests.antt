-- ===== src/Permissions/Tests.antt =====
-- The guard of an action that is granted.
use link_lynx_ai.Common.{true, false, none, some, ◌≡◌, ◌↔◌, is_empty, trim}
use link_lynx_ai.Permissions.{
  PermissionSnapshot, create_invite, allowed, succeeded, use_action_guard, IsOn, PermitsIn,
  get_action_guard_message, use_action_guard-allowed,
}

abbrev snapshot : PermissionSnapshot
snapshot = record {
  guild_id = "1";
  channel_id = none;
  guild = record {
    can_view = true;
    can_create_channel = false;
    can_create_invite = true;
    can_manage_settings = false;
    can_moderate = false;
  };
  channel = none;
}

use_action_guard-allowed_example :
    let status = use_action_guard "1" create_invite none none (succeeded (some snapshot)) in
    ((status ≡ allowed) ↔ (
      (is_empty (trim "1") ≡ false)
      × IsOn none
      × PermitsIn (succeeded (some snapshot)) none create_invite))
    × ((get_action_guard_message status ≡ none) ↔ (status ≡ allowed))
use_action_guard-allowed_example =
    use_action_guard-allowed "1" create_invite none none (succeeded (some snapshot))
