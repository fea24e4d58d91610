-- ===== src/Requests/Addresses.antt =====
-- shared/api/guild-channel-api-client.ts: the paths that the methods send requests to.
use link_lynx_ai.Common.{
  String, Bool, true, false, not, ◌&&◌, List, [], ◌∷◌, Option, none, some, ◌≡◌, refl, arith,
  is_empty, trim, or_else, inl, inr, ℤ, leb, Option-cases,
}
use link_lynx_ai.Requests.Plan.{Platform, Plan, send, refuse, nothing, is_blank_id, Json, number}
use link_lynx_ai.Guilds.Data.{DmChannelSummary, map_dm_channel}
use link_lynx_ai.Requests.Members.{ProfileMediaTarget}
use link_lynx_ai.Requests.Calls.{Call, plan}

abbrev pub are_filled : List String → Bool
are_filled [] = true
are_filled (s ∷ segments) = not (is_empty s) && are_filled segments

-- A request that is sent has no empty segment in its path.
abbrev pub is_addressed : Plan → Bool
is_addressed (send r) = are_filled r.segments
is_addressed (refuse e) = true
is_addressed nothing = true

-- What the methods take for granted: a message that is edited or deleted stands in a channel of a
-- guild, and a report that is resolved or opened again has ids.
abbrev pub has_ids : Call → Bool
has_ids (Call.edit_message g c m s v) = not (is_empty (or_else g ""))
has_ids (Call.delete_message g c m v) = not (is_empty (or_else g ""))
has_ids (Call.resolve_moderation_report g r) = not (is_blank_id g) && not (is_blank_id r)
has_ids (Call.reopen_moderation_report g r) = not (is_blank_id g) && not (is_blank_id r)
has_ids _ = true

-- Where percent coding keeps what is not empty so, no request is sent to a path with an empty segment:
-- a blank id is refused before, or the method gives its empty answer. This holds for every call
-- of `Call`, but editing and deleting a message want a channel of a guild, and resolving and opening a
-- report again want ids that are not blank.
pub plan-is_addressed :
    (p : Platform) (call : Call)
    → ((s : String) → is_empty (p.encode s) ≡ is_empty s)
    → has_ids call ≡ true
    → is_addressed (plan p call) ≡ true
unfolding plan is_empty
plan-is_addressed p (Call.get_messages none c b a l) enc h = ground (arith, enc (trim c))
plan-is_addressed p (Call.get_messages (some g) c b a l) enc h =
    ground (arith, enc (trim c), enc (trim g))
plan-is_addressed p (Call.send_message none c s) enc h = ground (arith, enc (trim c))
plan-is_addressed p (Call.send_message (some g) c s) enc h =
    ground (arith, enc (trim c), enc (trim g))
plan-is_addressed p (Call.edit_message g c m s v) enc h =
    ground (arith, enc (or_else g ""), enc (trim c), enc (trim m))
plan-is_addressed p (Call.delete_message g c m v) enc h =
    ground (arith, enc (or_else g ""), enc (trim c), enc (trim m))
plan-is_addressed p Call.get_pinned_messages enc h = refl
plan-is_addressed p Call.add_reaction enc h = refl
plan-is_addressed p Call.remove_reaction enc h = refl
plan-is_addressed p Call.pin_message enc h = refl
plan-is_addressed p Call.unpin_message enc h = refl
plan-is_addressed p (Call.get_members g) enc h = ground (arith, enc (trim g))
plan-is_addressed p (Call.get_user_profile u) enc h = ground (arith, enc (trim u))
plan-is_addressed p (Call.get_roles g) enc h = ground (arith, enc (trim g))
plan-is_addressed p (Call.create_role g n v w m) enc h = ground (arith, enc (trim g))
plan-is_addressed p (Call.update_role g r d) enc h = ground (arith, enc (trim g), enc (trim r))
plan-is_addressed p (Call.delete_role g r) enc h = ground (arith, enc (trim g), enc (trim r))
plan-is_addressed p (Call.reorder_roles g ks) enc h = ground (arith, enc (trim g))
plan-is_addressed p (Call.replace_member_roles g m ks) enc h =
    ground (arith, enc (trim g), enc (trim m))
plan-is_addressed p (Call.get_channel_permissions g c) enc h =
    ground (arith, enc (trim g), enc (trim c))
plan-is_addressed p (Call.replace_channel_permissions g c rs us) enc h =
    ground (arith, enc (trim g), enc (trim c))
plan-is_addressed p (Call.get_channels g) enc h = ground (arith, enc (trim g))
plan-is_addressed p (Call.get_channel c) enc h = ground (arith, enc (trim c))
plan-is_addressed p Call.get_dm_channels enc h = refl
plan-is_addressed p Call.get_my_profile enc h = refl
plan-is_addressed p (Call.update_my_profile i) enc h = ground arith
plan-is_addressed p (Call.create_my_profile_media_upload_url t f c s) enc h = ground arith
plan-is_addressed p (Call.get_my_profile_media_download_url ProfileMediaTarget.avatar) enc h = refl
plan-is_addressed p (Call.get_my_profile_media_download_url ProfileMediaTarget.banner) enc h = refl
plan-is_addressed p Call.get_servers enc h = refl
plan-is_addressed p (Call.get_server g) enc h = ground arith
plan-is_addressed p (Call.create_server n) enc h = ground arith
plan-is_addressed p (Call.get_permission_snapshot g c) enc h = ground (arith, enc (trim g))
plan-is_addressed p (Call.update_server g n i) enc h = ground (arith, enc (trim g))
plan-is_addressed p (Call.delete_server g) enc h = ground (arith, enc (trim g))
plan-is_addressed p (Call.create_channel g n t c) enc h = ground (arith, enc (trim g))
plan-is_addressed p (Call.create_invite g c a u) enc h = ground (arith, enc (trim g))
plan-is_addressed p (Call.get_invites g c) enc h = ground (arith, enc (trim g))
plan-is_addressed p (Call.revoke_invite g i c) enc h = ground (arith, enc (trim g), enc (trim i))
plan-is_addressed p (Call.create_dm r) enc h = ground arith
plan-is_addressed p (Call.update_channel c n) enc h = ground (arith, enc (trim c))
plan-is_addressed p (Call.delete_channel c) enc h = ground (arith, enc (trim c))
plan-is_addressed p (Call.get_moderation_reports g) enc h = ground (arith, enc (trim g))
plan-is_addressed p (Call.get_moderation_report g r) enc h =
    ground (arith, enc (trim g), enc (trim r))
plan-is_addressed p (Call.create_moderation_report g t i r) enc h = ground (arith, enc (trim g))
plan-is_addressed p (Call.resolve_moderation_report g r) enc h =
    ground (arith, enc (trim g), enc (trim r))
plan-is_addressed p (Call.reopen_moderation_report g r) enc h =
    ground (arith, enc (trim g), enc (trim r))
plan-is_addressed p (Call.create_moderation_mute g u r e) enc h = ground (arith, enc (trim g))

-- A message of a direct message channel, which has no guild, is edited with a request to a path with an
-- empty segment, where percent coding keeps the empty text.
pub edit_message-direct :
    (p : Platform) (summary : DmChannelSummary) (position : ℤ)
    (message_id content expected_version : String)
    → p.encode "" ≡ ""
    → is_blank_id message_id ≡ false
    → is_blank_id content ≡ false
    → is_blank_id expected_version ≡ false
    → is_blank_id (map_dm_channel summary position).id ≡ false
    → is_addressed (
        plan p (
          Call.edit_message
            (map_dm_channel summary position).guild_id
            (map_dm_channel summary position).id
            message_id
            content
            expected_version))
      ≡ false
unfolding plan is_empty
edit_message-direct p summary position m s v enc h k l n = rw (h, k, l, n, enc) refl

abbrev is_exact_body : Option (List (String × Json)) → Bool
is_exact_body (some ((name, number n) ∷ [])) = leb 1 n && leb n 9007199254740991
is_exact_body _ = false

-- The one number of the body is positive and at most `Number.MAX_SAFE_INTEGER`.
abbrev pub is_exact : Plan → Bool
is_exact (send r) = is_exact_body r.body
is_exact (refuse e) = true
is_exact nothing = true

-- The recipient of a direct message channel that is sent to the server is a positive number that a
-- JavaScript number holds exactly, whatever the text that was given for it.
pub create_dm-is_exact :
    (p : Platform) (recipient_id : String) → is_exact (plan p (Call.create_dm recipient_id)) ≡ true
unfolding plan
create_dm-is_exact p recipient_id = elim (Option-cases (p.to_number (trim recipient_id))) [
  | inl e ↦ ground arith
  | inr (n, e) ↦ ground arith
]
