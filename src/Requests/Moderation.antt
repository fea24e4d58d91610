-- ===== src/Requests/Moderation.antt =====
-- shared/api/guild-channel-api-client.ts: the requests for moderation reports and mutes.
use link_lynx_ai.Common.{
  ℕ, String, ◌||◌, List, [], ◌∷◌, Option, none, some, if◌then◌else◌, trim, ◌==◌,
}
use link_lynx_ai.Guilds.Client.{not_found, validation_error}
use link_lynx_ai.Requests.Plan.{
  Platform, Plan, send, refuse, nothing, Json, Method, null, number, string, is_blank_id, get_json,
  post_json,
}

abbrev or_null : Option String → Json
or_null none = null
or_null (some s) = string s

module _ (platform : Platform) where
  abbrev reports_path : String → List String → List String
  reports_path server_id rest =
      "guilds" ∷ platform.encode (trim server_id) ∷ "moderation" ∷ "reports" ∷ rest

  abbrev pub get_moderation_reports : String → Plan
  get_moderation_reports server_id =
      if is_blank_id server_id then nothing else get_json (reports_path server_id []) []

  abbrev pub get_moderation_report : String → String → Plan
  get_moderation_report server_id report_id =
      if is_blank_id server_id || is_blank_id report_id
      then refuse (not_found "Moderation report not found." "MODERATION_NOT_FOUND")
      else get_json (reports_path server_id (platform.encode (trim report_id) ∷ [])) []

  abbrev send_report : String → String → String → Option ℕ → Plan
  send_report server_id target_type reason none = refuse validation_error
  send_report server_id target_type reason (some target) =
      if target == 0
      then refuse validation_error
      else post_json (reports_path server_id []) (
          ("target_type", string target_type)
          ∷ ("target_id", number target)
          ∷ ("reason", string (trim reason))
          ∷ [])

  abbrev pub create_moderation_report : String → String → String → String → Plan
  create_moderation_report server_id target_type target_id reason =
      if is_blank_id server_id || is_blank_id reason || is_blank_id target_id
      then refuse validation_error
      else send_report server_id target_type reason (platform.parse_int (trim target_id))

  -- `resolveModerationReport` and `reopenModerationReport` are alike but for the last segment.
  abbrev post_report : String → String → String → Plan
  post_report action server_id report_id = send (record {
    method = Method.post;
    segments = reports_path server_id (platform.encode (trim report_id) ∷ action ∷ []);
    search = [];
    body = none;
    expected_status = 200;
  })

  abbrev pub resolve_moderation_report : String → String → Plan
  resolve_moderation_report server_id report_id = post_report "resolve" server_id report_id

  abbrev pub reopen_moderation_report : String → String → Plan
  reopen_moderation_report server_id report_id = post_report "reopen" server_id report_id

  abbrev send_mute : String → String → Option String → Option ℕ → Plan
  send_mute server_id reason expires_at none = refuse validation_error
  send_mute server_id reason expires_at (some target) =
      if target == 0
      then refuse validation_error
      else post_json ("guilds" ∷ platform.encode (trim server_id) ∷ "moderation" ∷ "mutes" ∷ []) (
          ("target_user_id", number target)
          ∷ ("reason", string (trim reason))
          ∷ ("expires_at", or_null expires_at)
          ∷ [])

  abbrev pub create_moderation_mute : String → String → String → Option String → Plan
  create_moderation_mute server_id target_user_id reason expires_at =
      if is_blank_id server_id || is_blank_id target_user_id || is_blank_id reason
      then refuse validation_error
      else send_mute server_id reason expires_at (platform.parse_int (trim target_user_id))
