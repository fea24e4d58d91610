-- ===== src/Stores/Guild.antt =====
-- shared/model/stores/guild-store.ts. A `Set` is the list of its elements.
use link_lynx_ai.Common.{
  String, Bool, true, false, not, List, [], ◌∷◌, ◌++◌, Option, none, some, ◌≡◌, ◌≢◌, refl, sym,
  arith, if◌then◌else◌, or_else, any, keep, lookup, insert, lookup-insert_same, lookup-insert_other,
  str_discrete, is_empty, Bool-cases, inl, inr,
}
use link_lynx_ai.Timeline.{same}

pub record GuildState : Type 0 where
  pub active_server_id : Option String
  pub active_channel_id : Option String
  pub last_channel_per_server : List (String × String)
  pub collapsed_categories : List (String × List String)
  pub collapsed_folders : List String

abbrev pub initial : GuildState
initial = record {
  active_server_id = none;
  active_channel_id = none;
  last_channel_per_server = [];
  collapsed_categories = [];
  collapsed_folders = [];
}

-- The empty string is false.
abbrev channel_of : Option String → List (String × String) → Option String
channel_of none last = none
channel_of (some g) last = if is_empty g then none else lookup str_discrete g last

unfoldable pub set_active_server : Option String → GuildState → GuildState
unfolding is_empty lookup
set_active_server server_id s = record s {
  active_server_id = server_id;
  active_channel_id = channel_of server_id s.last_channel_per_server;
}

abbrev remember : Option String → String → List (String × String) → List (String × String)
remember none channel_id last = last
remember (some g) channel_id last =
    if is_empty g then last else insert str_discrete g channel_id last

unfoldable pub set_active_channel : String → GuildState → GuildState
unfolding is_empty insert
set_active_channel channel_id s = record s {
  active_channel_id = some channel_id;
  last_channel_per_server = remember s.active_server_id channel_id s.last_channel_per_server;
}

abbrev pub member : String → List String → Bool
member x set = any (λ y. same y x) set

unfoldable pub toggle : String → List String → List String
unfolding keep
toggle x set = if member x set then keep (λ y. not (same y x)) set else set ++ x ∷ []

abbrev pub collapsed_in : String → GuildState → List String
collapsed_in server_id s = or_else (lookup str_discrete server_id s.collapsed_categories) []

unfoldable pub toggle_category : String → String → GuildState → GuildState
unfolding lookup insert toggle
toggle_category server_id category_id s = record s {
  collapsed_categories =
      insert str_discrete server_id (toggle category_id (collapsed_in server_id s))
        s.collapsed_categories;
}

unfoldable pub toggle_folder : String → GuildState → GuildState
unfolding toggle
toggle_folder folder_id s = record s { collapsed_folders = toggle folder_id s.collapsed_folders }

-- Back on a server, the channel that was chosen there last is active again, whatever other servers
-- and channels were visited in between.
pub set_active_server-restores :
    (g h c d : String) (s : GuildState)
    → is_empty g ≡ false
    → g ≢ h
    → let chosen = set_active_channel c (set_active_server (some g) s) in
      let elsewhere = set_active_channel d (set_active_server (some h) chosen) in
      (set_active_server (some g) elsewhere).active_channel_id ≡ some c
unfolding set_active_server set_active_channel
set_active_server-restores g h c d s n e =
    let last = s.last_channel_per_server in
    let own = lookup-insert_same str_discrete g c last in
    let kept =
      lookup-insert_other str_discrete h g d (insert str_discrete g c last) (λ q. e (sym q)) in
    ground arith

member-append :
    (x y : String) (set : List String)
    → member y (set ++ x ∷ []) ≡ (if same x y then true else member y set)
member-append x y [] = ground arith
member-append x y (z ∷ set) = ground (arith, member-append x y set)

member-keep :
    (x y : String) (set : List String)
    → member y (keep (λ z. not (same z x)) set) ≡ (if same x y then false else member y set)
unfolding keep
member-keep x y [] = ground arith
member-keep x y (z ∷ set) = ground (arith, member-keep x y set)

pub member-toggle :
    (x y : String) (set : List String)
    → member y (toggle x set) ≡ (if same x y then not (member x set) else member y set)
unfolding toggle
member-toggle x y set = elim (Bool-cases (member x set)) [
  | inl e ↦ rw e (member-keep x y set)
  | inr e ↦ rw e (member-append x y set)
]

-- Toggling a category changes whether it is collapsed, and touches no other category of its server
-- and no other server.
pub toggle_category_lem :
    (g h x y : String) (s : GuildState)
    → g ≢ h
    → let after = toggle_category g x s in
      (member y (collapsed_in g after)
        ≡ (if same x y then not (member x (collapsed_in g s)) else member y (collapsed_in g s)))
      × (collapsed_in h after ≡ collapsed_in h s)
unfolding toggle_category
toggle_category_lem g h x y s d =
    let after = toggle x (collapsed_in g s) in
    let own = lookup-insert_same str_discrete g after s.collapsed_categories in
    let rest = lookup-insert_other str_discrete g h after s.collapsed_categories in
    (rw own (member-toggle x y (collapsed_in g s)), rw (rest d) refl)
