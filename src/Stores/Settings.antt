-- ===== src/Stores/Settings.antt =====
-- shared/model/stores/settings-store.ts
use link_lynx_ai.Common.{
  ℕ, Bool, true, false, not, ◌&&◌, List, [], ◌∷◌, ◌≡◌, arith, min, max, leb, ℤ,
}

pub data ThemeMode : Type 0 where
  dark light : ThemeMode

pub record SettingsState : Type 0 where
  pub theme : ThemeMode
  pub compact_mode : Bool
  pub font_size : ℕ
  pub message_group_spacing : ℕ
  pub show_timestamps : Bool
  pub use24_hour_time : Bool
  pub enable_reduced_motion : Bool
  pub enable_high_contrast : Bool

abbrev pub initial : SettingsState
initial = record {
  theme = dark;
  compact_mode = false;
  font_size = 16;
  message_group_spacing = 16;
  show_timestamps = true;
  use24_hour_time = false;
  enable_reduced_motion = false;
  enable_high_contrast = false;
}

-- `Math.min(high, Math.max(low, n))` with natural bounds.
abbrev bounded : ℕ → ℕ → ℤ → ℕ
bounded low high (ℤ.pos n) = min high (max low n)
bounded low high (ℤ.negsuc n) = min high low

-- The actions of the store.
pub data SettingsAction : Type 0 where
  set_theme : ThemeMode → SettingsAction
  toggle_compact_mode : SettingsAction
  set_font_size set_message_group_spacing : ℤ → SettingsAction
  toggle_timestamps toggle24_hour_time toggle_reduced_motion toggle_high_contrast : SettingsAction

unfoldable pub act : SettingsAction → SettingsState → SettingsState
act (set_theme theme) s = record s { theme = theme }
act toggle_compact_mode s = record s { compact_mode = not s.compact_mode }
act (set_font_size size) s = record s { font_size = bounded 12 24 size }
act (set_message_group_spacing spacing) s = record s {
  message_group_spacing = bounded 0 20 spacing;
}
act toggle_timestamps s = record s { show_timestamps = not s.show_timestamps }
act toggle24_hour_time s = record s { use24_hour_time = not s.use24_hour_time }
act toggle_reduced_motion s = record s { enable_reduced_motion = not s.enable_reduced_motion }
act toggle_high_contrast s = record s { enable_high_contrast = not s.enable_high_contrast }

unfoldable pub act_all : List SettingsAction → SettingsState → SettingsState
unfolding act
act_all [] s = s
act_all (a ∷ actions) s = act_all actions (act a s)

-- The sizes that the application can show.
abbrev pub is_in_bounds : SettingsState → Bool
is_in_bounds s = leb 12 s.font_size && leb s.font_size 24 && leb s.message_group_spacing 20

act-is_in_bounds :
    (a : SettingsAction) (s : SettingsState) → is_in_bounds s ≡ true → is_in_bounds (act a s) ≡ true
unfolding act
act-is_in_bounds (set_theme theme) s h = h
act-is_in_bounds toggle_compact_mode s h = h
act-is_in_bounds (set_font_size (ℤ.pos n)) s h = ground arith
act-is_in_bounds (set_font_size (ℤ.negsuc n)) s h = ground arith
act-is_in_bounds (set_message_group_spacing (ℤ.pos n)) s h = ground arith
act-is_in_bounds (set_message_group_spacing (ℤ.negsuc n)) s h = ground arith
act-is_in_bounds toggle_timestamps s h = h
act-is_in_bounds toggle24_hour_time s h = h
act-is_in_bounds toggle_reduced_motion s h = h
act-is_in_bounds toggle_high_contrast s h = h

-- From settings within the bounds, any actions with any integers keep the font size between 12 and 24
-- and the spacing at 20 at most.
pub act_all-is_in_bounds :
    (actions : List SettingsAction) (s : SettingsState)
    → is_in_bounds s ≡ true
    → is_in_bounds (act_all actions s) ≡ true
unfolding act_all
act_all-is_in_bounds [] s h = h
act_all-is_in_bounds (a ∷ actions) s h =
    act_all-is_in_bounds actions (act a s) (act-is_in_bounds a s h)
