-- ===== src/Stores/Ui.antt =====
-- shared/model/stores/ui-store.ts; `crypto.randomUUID` is a parameter of `add_toast`.
use link_lynx_ai.Common.{
  ℕ, String, Bool, true, false, not, List, [], ◌∷◌, ◌++◌, Option, none, some, ◌≡◌, ap, arith, keep,
  if◌then◌else◌, any,
}
use link_lynx_ai.Timeline.{same}

pub data RightPanelType : Type 0 where
  members threads search pinned inbox : RightPanelType

pub data ToastType : Type 0 where
  info success error : ToastType

pub record Toast : Type 0 where
  pub id : String
  pub message : String
  pub type_ : ToastType

pub record Position : Type 0 where
  pub x : ℕ
  pub y : ℕ

pub record ContextMenuState (D : Type 0) : Type 0 where
  pub type_ : String
  pub position : Position
  pub value : D

pub record ProfilePopoutState : Type 0 where
  pub user_id : String
  pub position : Position

pub record ActiveMessageEditState : Type 0 where
  pub channel_id : String
  pub message_id : String

-- `D` is the data of a context menu, `M` a kind of modal, `P` the properties of a modal.
pub record UiState (D M P : Type 0) : Type 0 where
  pub member_list_visible : Bool
  pub channel_sidebar_width : ℕ
  pub developer_mode : Bool
  pub streamer_mode : Bool
  pub active_right_panel : Option RightPanelType
  pub active_modal : Option M
  pub modal_props : Option P
  pub context_menu : Option (ContextMenuState D)
  pub profile_popout : Option ProfilePopoutState
  pub active_message_edit : Option ActiveMessageEditState
  pub toasts : List Toast

abbrev same_panel : RightPanelType → RightPanelType → Bool
same_panel members members = true
same_panel threads threads = true
same_panel search search = true
same_panel pinned pinned = true
same_panel inbox inbox = true
same_panel _ _ = false

abbrev is_open : Option RightPanelType → Option RightPanelType → Bool
is_open none none = true
is_open (some p) (some q) = same_panel p q
is_open _ _ = false

module _ {D M P : Type 0} where
  -- `{}` of `modalProps` is `none`.
  abbrev pub initial : UiState D M P
  initial = record {
    member_list_visible = true;
    channel_sidebar_width = 240;
    developer_mode = false;
    streamer_mode = false;
    active_right_panel = none;
    active_modal = none;
    modal_props = none;
    context_menu = none;
    profile_popout = none;
    active_message_edit = none;
    toasts = [];
  }

  abbrev pub toggle_member_list : UiState D M P → UiState D M P
  toggle_member_list s = record s { member_list_visible = not s.member_list_visible }

  abbrev pub set_channel_sidebar_width : ℕ → UiState D M P → UiState D M P
  set_channel_sidebar_width width s = record s { channel_sidebar_width = width }

  unfoldable pub set_active_right_panel : Option RightPanelType → UiState D M P → UiState D M P
  set_active_right_panel panel s = record s {
    active_right_panel = if is_open s.active_right_panel panel then none else panel;
  }

  abbrev pub open_modal : Option M → Option P → UiState D M P → UiState D M P
  open_modal type_ props s = record s { active_modal = type_; modal_props = props }

  abbrev pub close_modal : UiState D M P → UiState D M P
  close_modal s = record s { active_modal = none; modal_props = none }

  abbrev pub show_context_menu : String → Position → D → UiState D M P → UiState D M P
  show_context_menu type_ position value s = record s {
    context_menu = some (record { type_ = type_; position = position; value = value });
  }

  abbrev pub hide_context_menu : UiState D M P → UiState D M P
  hide_context_menu s = record s { context_menu = none }

  abbrev pub show_profile_popout : String → Position → UiState D M P → UiState D M P
  show_profile_popout user_id position s = record s {
    profile_popout = some (record { user_id = user_id; position = position });
  }

  abbrev pub hide_profile_popout : UiState D M P → UiState D M P
  hide_profile_popout s = record s { profile_popout = none }

  abbrev pub start_message_edit : String → String → UiState D M P → UiState D M P
  start_message_edit channel_id message_id s = record s {
    active_message_edit = some (record { channel_id = channel_id; message_id = message_id });
  }

  abbrev pub stop_message_edit : UiState D M P → UiState D M P
  stop_message_edit s = record s { active_message_edit = none }

  unfoldable pub add_toast : String → String → ToastType → UiState D M P → UiState D M P
  add_toast id message type_ s = record s {
    toasts = s.toasts ++ record { id = id; message = message; type_ = type_ } ∷ [];
  }

  unfoldable pub remove_toast : String → UiState D M P → UiState D M P
  unfolding keep
  remove_toast id s = record s { toasts = keep (λ t. not (same t.id id)) s.toasts }

  abbrev pub toggle_developer_mode : UiState D M P → UiState D M P
  toggle_developer_mode s = record s { developer_mode = not s.developer_mode }

  abbrev pub toggle_streamer_mode : UiState D M P → UiState D M P
  toggle_streamer_mode s = record s { streamer_mode = not s.streamer_mode }

-- A toast with this id.
abbrev pub has_toast : String → List Toast → Bool
has_toast id toasts = any (λ t. same t.id id) toasts

keep-added :
    (toast : Toast) (toasts : List Toast)
    → has_toast toast.id toasts ≡ false
    → keep (λ t. not (same t.id toast.id)) (toasts ++ toast ∷ []) ≡ toasts
unfolding keep
keep-added toast [] h = ground arith
keep-added toast (t ∷ toasts) h = ground (arith, keep-added toast toasts)

-- A toast that is added with an id that no other has, and taken away again, leaves the others and the
-- rest of the state as they were.
pub remove_toast-add :
    {D M P : Type 0} (id message : String) (type_ : ToastType) (s : UiState D M P)
    → has_toast id s.toasts ≡ false
    → remove_toast id (add_toast id message type_ s) ≡ s
unfolding remove_toast add_toast
remove_toast-add id message type_ s h =
    ap (λ ts. record s { toasts = ts })
      (keep-added (record { id = id; message = message; type_ = type_ }) s.toasts h)
