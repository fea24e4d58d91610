-- ===== src/Timeline/Components.antt =====
-- shared/model/types/bot-components.ts: the rows of components that a message may have.
use link_lynx_ai.Common.{ℕ, String, Bool, List, Option}

pub data ButtonStyle : Type 0 where
  primary secondary success danger link : ButtonStyle

pub record ComponentEmoji : Type 0 where
  pub id : Option String
  pub name : String
  pub animated : Bool

pub record ButtonComponent : Type 0 where
  pub style : ButtonStyle
  pub label : Option String
  pub emoji : Option ComponentEmoji
  pub custom_id : Option String
  pub url : Option String
  pub disabled : Option Bool

pub record SelectOption : Type 0 where
  pub label : String
  pub value : String
  pub description : Option String
  pub emoji : Option ComponentEmoji
  pub default : Option Bool

-- What the select components have in common.
pub record Select : Type 0 where
  pub custom_id : String
  pub placeholder : Option String
  pub min_values : Option ℕ
  pub max_values : Option ℕ
  pub disabled : Option Bool

pub data Component : Type 0 where
  button : ButtonComponent → Component
  select_menu : Select → List SelectOption → Component
  user_select : Select → Component
  role_select : Select → Component
  channel_select : Select → Option (List ℕ) → Component

pub record ActionRow : Type 0 where
  pub components : List Component
