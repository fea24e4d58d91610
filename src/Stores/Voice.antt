-- ===== src/Stores/Voice.antt =====
-- shared/model/stores/voice-store.ts
use link_lynx_ai.Common.{
  String, Bool, true, false, not, List, [], ◌∷◌, Option, none, some, ◌≡◌, ◌≢◌, refl, arith,
  if◌then◌else◌, map,
}
use link_lynx_ai.Timeline.{same}

pub record VoiceParticipant : Type 0 where
  pub user_id : String
  pub muted : Bool
  pub deafened : Bool
  pub speaking : Bool
  pub camera_on : Bool
  pub screen_sharing : Bool

pub record VoiceState : Type 0 where
  pub connected : Bool
  pub channel_id : Option String
  pub server_id : Option String
  pub self_muted : Bool
  pub self_deafened : Bool
  pub camera_on : Bool
  pub screen_sharing : Bool
  pub participants : List VoiceParticipant

abbrev pub initial : VoiceState
initial = record {
  connected = false;
  channel_id = none;
  server_id = none;
  self_muted = false;
  self_deafened = false;
  camera_on = false;
  screen_sharing = false;
  participants = [];
}

abbrev participant : String → Bool → Bool → VoiceParticipant
participant user_id muted speaking = record {
  user_id = user_id;
  muted = muted;
  deafened = false;
  speaking = speaking;
  camera_on = false;
  screen_sharing = false;
}

unfoldable pub connect : String → String → VoiceState → VoiceState
connect server_id channel_id s = record s {
  connected = true;
  server_id = some server_id;
  channel_id = some channel_id;
  self_muted = false;
  self_deafened = false;
  participants =
      participant "100000000000000002" false false
      ∷ participant "100000000000000003" true false
      ∷ participant "100000000000000004" false true
      ∷ [];
}

unfoldable pub disconnect : VoiceState → VoiceState
disconnect s = record s {
  connected = false;
  channel_id = none;
  server_id = none;
  self_muted = false;
  self_deafened = false;
  camera_on = false;
  screen_sharing = false;
  participants = [];
}

unfoldable pub toggle_mute : VoiceState → VoiceState
toggle_mute s = record s { self_muted = not s.self_muted }

unfoldable pub toggle_deafen : VoiceState → VoiceState
toggle_deafen s = record s {
  self_deafened = not s.self_deafened;
  self_muted = if not s.self_deafened then true else s.self_muted;
}

unfoldable pub toggle_camera : VoiceState → VoiceState
toggle_camera s = record s { camera_on = not s.camera_on }

unfoldable pub toggle_screen_share : VoiceState → VoiceState
toggle_screen_share s = record s { screen_sharing = not s.screen_sharing }

abbrev speak : String → Bool → VoiceParticipant → VoiceParticipant
speak user_id speaking p = if same p.user_id user_id then record p { speaking = speaking } else p

unfoldable pub set_speaking : String → Bool → VoiceState → VoiceState
set_speaking user_id speaking s = record s {
  participants = map (speak user_id speaking) s.participants;
}

pub data Action : Type 0 where
  connects : String → String → Action
  disconnects mutes deafens turns_camera shares_screen : Action
  speaks : String → Bool → Action

unfoldable pub step : Action → VoiceState → VoiceState
unfolding connect disconnect toggle_mute toggle_deafen toggle_camera toggle_screen_share
    set_speaking
step (connects server_id channel_id) s = connect server_id channel_id s
step disconnects s = disconnect s
step mutes s = toggle_mute s
step deafens s = toggle_deafen s
step turns_camera s = toggle_camera s
step shares_screen s = toggle_screen_share s
step (speaks user_id speaking) s = set_speaking user_id speaking s

abbrev pub run : List Action → VoiceState → VoiceState
run [] s = s
run (a ∷ as_) s = run as_ (step a s)

-- Without a connection there is no channel, no server and no participant; with one, there are both.
abbrev pub IsConsistent : VoiceState → Type 0
IsConsistent s = elim s.connected [
  | true ↦ (s.channel_id ≢ none) × (s.server_id ≢ none)
  | false ↦ (s.channel_id ≡ none) × (s.server_id ≡ none) × (s.participants ≡ [])
]

step-IsConsistent : (a : Action) (s : VoiceState) → IsConsistent s → IsConsistent (step a s)
unfolding step
step-IsConsistent (connects g c) s h = ground arith
step-IsConsistent disconnects s h = ground arith
step-IsConsistent mutes s h = ground arith
step-IsConsistent deafens s h = ground arith
step-IsConsistent turns_camera s h = ground arith
step-IsConsistent shares_screen s h = ground arith
step-IsConsistent (speaks u b) s h = ground arith

run-from : (as_ : List Action) (s : VoiceState) → IsConsistent s → IsConsistent (run as_ s)
run-from [] s h = h
run-from (a ∷ as_) s h = run-from as_ (step a s) (step-IsConsistent a s h)

-- Whatever actions are taken from the start, the voice state has a channel and a server while it is
-- connected, and neither, nor any participant, while it is not.
pub run-IsConsistent : (as_ : List Action) → IsConsistent (run as_ initial)
run-IsConsistent as_ = run-from as_ initial (refl, refl, refl)
