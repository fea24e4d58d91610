-- ===== src/Requests/Members.antt =====
-- shared/api/guild-channel-api-client.ts: the requests for members, profiles, roles and permissions.
use link_lynx_ai.Common.{
  ℕ, String, Bool, true, false, not, ◌||◌, List, [], ◌∷◌, ◌++◌, Option, none, some, if◌then◌else◌,
  is_empty, trim, map, keep,
}
use link_lynx_ai.Guilds.Client.{validation_error}
use link_lynx_ai.Requests.Plan.{
  Platform, Plan, send, refuse, nothing, Json, Method, null, number, string, boolean, strings,
  Override, overrides, is_blank_id, bad_request, get_json, post_json, patch_json, put_json,
  delete_no_content, field_of, has_fields,
}

-- `normalizedRoleKeys`
abbrev normalized_role_keys : List String → List String
normalized_role_keys keys = keep (λ k. not (is_empty k)) (map trim keys)

abbrev is_none_left : List String → Bool
is_none_left [] = true
is_none_left (k ∷ keys) = false

abbrev is_blank_name : Option String → Bool
is_blank_name none = false
is_blank_name (some s) = is_blank_id s

abbrev text_or_null : Option String → Json
text_or_null none = null
text_or_null (some s) = string s

pub record UpdateRoleInput : Type 0 where
  pub name : Option String
  pub allow_view : Option Bool
  pub allow_post : Option Bool
  pub allow_manage : Option Bool

-- A field that may be `null`: `none` where it is not given.
pub record UpdateMyProfileInput : Type 0 where
  pub display_name : Option String
  pub status_text : Option (Option String)
  pub avatar_key : Option (Option String)
  pub banner_key : Option (Option String)
  pub theme : Option String

abbrev update_role_body : UpdateRoleInput → List (String × Json)
update_role_body data_ =
    field_of "name" (λ s. string (trim s)) data_.name
    ++ (field_of "allow_view" boolean data_.allow_view
        ++ (field_of "allow_post" boolean data_.allow_post
            ++ field_of "allow_manage" boolean data_.allow_manage))

abbrev update_profile_body : UpdateMyProfileInput → List (String × Json)
update_profile_body input =
    field_of "display_name" string input.display_name
    ++ (field_of "status_text" text_or_null input.status_text
        ++ (field_of "avatar_key" text_or_null input.avatar_key
            ++ (field_of "banner_key" text_or_null input.banner_key
                ++ field_of "theme" string input.theme)))

module _ (platform : Platform) where
  -- Below a guild of the first version of the API.
  abbrev guild_path : String → List String → List String
  guild_path server_id rest = "v1" ∷ "guilds" ∷ platform.encode (trim server_id) ∷ rest

  abbrev pub get_members : String → Plan
  get_members server_id =
      if is_blank_id server_id then nothing else get_json (guild_path server_id ("members" ∷ [])) []

  abbrev pub get_user_profile : String → Plan
  get_user_profile user_id =
      if is_blank_id user_id
      then refuse (bad_request "User ID is required.")
      else get_json ("v1" ∷ "users" ∷ platform.encode (trim user_id) ∷ "profile" ∷ []) []

  abbrev pub get_roles : String → Plan
  get_roles server_id =
      if is_blank_id server_id then nothing else get_json (guild_path server_id ("roles" ∷ [])) []

  abbrev pub create_role : String → String → Bool → Bool → Bool → Plan
  create_role server_id name allow_view allow_post allow_manage =
      if is_blank_id server_id || is_blank_id name
      then refuse validation_error
      else post_json (guild_path server_id ("roles" ∷ [])) (
          ("name", string (trim name))
          ∷ ("allow_view", boolean allow_view)
          ∷ ("allow_post", boolean allow_post)
          ∷ ("allow_manage", boolean allow_manage)
          ∷ [])

  abbrev role_path : String → String → List String
  role_path server_id role_id = guild_path server_id ("roles" ∷ platform.encode (trim role_id) ∷ [])

  abbrev pub update_role : String → String → UpdateRoleInput → Plan
  update_role server_id role_id data_ =
      if is_blank_id server_id || is_blank_id role_id || is_blank_name data_.name
      then refuse validation_error
      else if not (has_fields (update_role_body data_))
      then refuse validation_error
      else patch_json (role_path server_id role_id) (update_role_body data_)

  abbrev pub delete_role : String → String → Plan
  delete_role server_id role_id =
      if is_blank_id server_id || is_blank_id role_id
      then refuse validation_error
      else delete_no_content (role_path server_id role_id) []

  abbrev pub reorder_roles : String → List String → Plan
  reorder_roles server_id role_keys =
      if is_blank_id server_id || is_none_left (normalized_role_keys role_keys)
      then refuse validation_error
      else put_json (guild_path server_id ("roles" ∷ "reorder" ∷ []))
          (("role_keys", strings (normalized_role_keys role_keys)) ∷ [])

  abbrev pub replace_member_roles : String → String → List String → Plan
  replace_member_roles server_id member_id role_keys =
      if is_blank_id server_id || is_blank_id member_id
      then refuse validation_error
      else put_json
          (guild_path server_id ("members" ∷ platform.encode (trim member_id) ∷ "roles" ∷ []))
          (("role_keys", strings (normalized_role_keys role_keys)) ∷ [])

  abbrev pub get_channel_permissions : String → String → Plan
  get_channel_permissions server_id channel_id =
      if is_blank_id server_id || is_blank_id channel_id
      then nothing
      else get_json
          (guild_path server_id
            ("channels" ∷ platform.encode (trim channel_id) ∷ "permissions" ∷ []))
          []

  abbrev pub replace_channel_permissions : String → String → List Override → List Override → Plan
  replace_channel_permissions server_id channel_id role_overrides user_overrides =
      if is_blank_id server_id || is_blank_id channel_id
      then refuse validation_error
      else put_json
          (guild_path server_id
            ("channels" ∷ platform.encode (trim channel_id) ∷ "permissions" ∷ []))
          (("role_overrides", overrides role_overrides)
            ∷ ("user_overrides", overrides user_overrides)
            ∷ [])

abbrev pub get_my_profile : Plan
get_my_profile = get_json ("users" ∷ "me" ∷ "profile" ∷ []) []

-- `hasMyProfileUpdateFields` asks for one field, as the test of the body would.
abbrev pub update_my_profile : UpdateMyProfileInput → Plan
update_my_profile input =
    if not (has_fields (update_profile_body input))
    then refuse (bad_request "No profile fields provided.")
    else patch_json ("users" ∷ "me" ∷ "profile" ∷ []) (update_profile_body input)

abbrev pub create_my_profile_media_upload_url : String → String → String → ℕ → Plan
create_my_profile_media_upload_url target filename content_type size_bytes = send (record {
  method = Method.post;
  segments = "users" ∷ "me" ∷ "profile" ∷ "media" ∷ "upload-url" ∷ [];
  search = [];
  body = some (
      ("target", string target)
      ∷ ("filename", string filename)
      ∷ ("content_type", string content_type)
      ∷ ("size_bytes", number size_bytes)
      ∷ []);
  expected_status = 200;
})

pub data ProfileMediaTarget : Type 0 where
  avatar banner : ProfileMediaTarget

abbrev target_name : ProfileMediaTarget → String
target_name avatar = "avatar"
target_name banner = "banner"

abbrev pub get_my_profile_media_download_url : ProfileMediaTarget → Plan
get_my_profile_media_download_url target =
    get_json ("users" ∷ "me" ∷ "profile" ∷ "media" ∷ target_name target ∷ "download-url" ∷ []) []
