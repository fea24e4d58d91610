-- ===== src/Requests/Calls.antt =====
-- shared/api/guild-channel-api-client.ts: the methods of `GuildChannelAPIClient` that send a request,
-- as data. `get_channels` and `get_channel` stand for the requests where nothing is remembered; how
-- getChannel asks the servers in between is in Guilds/Search.antt.
use link_lynx_ai.Common.{ℕ, String, Bool, List, Option}
use link_lynx_ai.Requests.Plan.{Platform, Plan, Override}
use link_lynx_ai.Requests.Messages
use link_lynx_ai.Requests.Members
use link_lynx_ai.Requests.Members.{UpdateRoleInput, UpdateMyProfileInput, ProfileMediaTarget}
use link_lynx_ai.Requests.Channels
use link_lynx_ai.Requests.Moderation

pub data Call : Type 0 where
  get_messages : Option String → String → Option String → Option String → Option ℕ → Call
  send_message : Option String → String → String → Call
  edit_message : Option String → String → String → String → String → Call
  delete_message : Option String → String → String → String → Call
  get_pinned_messages add_reaction remove_reaction pin_message unpin_message : Call
  get_members get_user_profile get_roles : String → Call
  create_role : String → String → Bool → Bool → Bool → Call
  update_role : String → String → UpdateRoleInput → Call
  delete_role : String → String → Call
  reorder_roles : String → List String → Call
  replace_member_roles : String → String → List String → Call
  get_channel_permissions : String → String → Call
  replace_channel_permissions : String → String → List Override → List Override → Call
  get_channels get_channel : String → Call
  get_dm_channels : Call
  get_my_profile : Call
  update_my_profile : UpdateMyProfileInput → Call
  create_my_profile_media_upload_url : String → String → String → ℕ → Call
  get_my_profile_media_download_url : ProfileMediaTarget → Call
  get_servers : Call
  get_server create_server : String → Call
  get_permission_snapshot : String → Option String → Call
  update_server : String → Option String → Option (Option String) → Call
  delete_server : String → Call
  create_channel : String → String → ℕ → Option String → Call
  create_invite : String → String → Option ℕ → Option ℕ → Call
  get_invites : String → Option String → Call
  revoke_invite : String → String → Option String → Call
  create_dm : String → Call
  update_channel : String → Option String → Call
  delete_channel get_moderation_reports : String → Call
  get_moderation_report : String → String → Call
  create_moderation_report : String → String → String → String → Call
  resolve_moderation_report reopen_moderation_report : String → String → Call
  create_moderation_mute : String → String → String → Option String → Call

unfoldable pub plan : Platform → Call → Plan
plan p (get_messages g c b a l) = Messages.get_messages p g c b a l
plan p (send_message g c s) = Messages.send_message p g c s
plan p (edit_message g c m s v) = Messages.edit_message p g c m s v
plan p (delete_message g c m v) = Messages.delete_message p g c m v
plan p get_pinned_messages = Messages.get_pinned_messages
plan p add_reaction = Messages.add_reaction
plan p remove_reaction = Messages.remove_reaction
plan p pin_message = Messages.pin_message
plan p unpin_message = Messages.unpin_message
plan p (get_members g) = Members.get_members p g
plan p (get_user_profile u) = Members.get_user_profile p u
plan p (get_roles g) = Members.get_roles p g
plan p (create_role g n v w m) = Members.create_role p g n v w m
plan p (update_role g r d) = Members.update_role p g r d
plan p (delete_role g r) = Members.delete_role p g r
plan p (reorder_roles g ks) = Members.reorder_roles p g ks
plan p (replace_member_roles g m ks) = Members.replace_member_roles p g m ks
plan p (get_channel_permissions g c) = Members.get_channel_permissions p g c
plan p (replace_channel_permissions g c rs us) = Members.replace_channel_permissions p g c rs us
plan p (get_channels g) = Channels.get_channels p g
plan p (get_channel c) = Channels.get_channel p c
plan p get_dm_channels = Channels.get_dm_channels
plan p get_my_profile = Members.get_my_profile
plan p (update_my_profile i) = Members.update_my_profile i
plan p (create_my_profile_media_upload_url t f c s) =
    Members.create_my_profile_media_upload_url t f c s
plan p (get_my_profile_media_download_url t) = Members.get_my_profile_media_download_url t
plan p get_servers = Channels.get_servers
plan p (get_server g) = Channels.get_server g
plan p (create_server n) = Channels.create_server n
plan p (get_permission_snapshot g c) = Channels.get_permission_snapshot p g c
plan p (update_server g n i) = Channels.update_server p g n i
plan p (delete_server g) = Channels.delete_server p g
plan p (create_channel g n t c) = Channels.create_channel p g n t c
plan p (create_invite g c a u) = Channels.create_invite p g c a u
plan p (get_invites g c) = Channels.get_invites p g c
plan p (revoke_invite g i c) = Channels.revoke_invite p g i c
plan p (create_dm r) = Channels.create_dm p r
plan p (update_channel c n) = Channels.update_channel p c n
plan p (delete_channel c) = Channels.delete_channel p c
plan p (get_moderation_reports g) = Moderation.get_moderation_reports p g
plan p (get_moderation_report g r) = Moderation.get_moderation_report p g r
plan p (create_moderation_report g t i r) = Moderation.create_moderation_report p g t i r
plan p (resolve_moderation_report g r) = Moderation.resolve_moderation_report p g r
plan p (reopen_moderation_report g r) = Moderation.reopen_moderation_report p g r
plan p (create_moderation_mute g u r e) = Moderation.create_moderation_mute p g u r e
