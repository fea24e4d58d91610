-- ===== src/Stores/Presence.antt =====
-- shared/model/stores/presence-store.ts
use link_lynx_ai.Common.{
  String, List, [], ◌∷◌, Option, none, some, ◌≡◌, refl, ap, ◌∙◌, subst, lookup, insert, remove,
  str_discrete, lookup-insert, ite,
}
use link_lynx_ai.Timeline.Data.{UserStatus}

pub data ActivityType : Type 0 where
  playing streaming listening watching competing : ActivityType

pub record Activity : Type 0 where
  pub name : String
  pub type_ : ActivityType
  pub details : Option String
  pub state : Option String

pub record UserPresence : Type 0 where
  pub status : UserStatus
  pub custom_status : Option String
  pub activities : Option (List Activity)

abbrev pub Presences : Type 0
Presences = List (String × UserPresence)

unfoldable pub set_presence : String → UserPresence → Presences → Presences
unfolding insert
set_presence user_id presence s = insert str_discrete user_id presence s

unfoldable pub remove_presence : String → Presences → Presences
unfolding remove
remove_presence user_id s = remove str_discrete user_id s

unfoldable pub get_presence : Presences → String → Option UserPresence
unfolding lookup
get_presence s user_id = lookup str_discrete user_id s

-- `{ ...state.presences, ...presences }`
unfoldable pub bulk_set_presences : Presences → Presences → Presences
unfolding set_presence
bulk_set_presences [] s = s
bulk_set_presences ((user_id, presence) ∷ presences) s =
    bulk_set_presences presences (set_presence user_id presence s)

-- No user twice, as in an object.
abbrev pub HasDistinctUsers : Presences → Type 0
HasDistinctUsers [] = Unit
HasDistinctUsers ((u, p) ∷ presences) =
    (get_presence presences u ≡ none) × HasDistinctUsers presences

abbrev pub or_first : Option UserPresence → Option UserPresence → Option UserPresence
or_first none q = q
or_first (some p) q = some p

-- One entry of the new presences, before the rest of them.
overriding :
    {P : Type 0} (dec : Dec P) (p : UserPresence) (rest old : Option UserPresence)
    → (P → rest ≡ none)
    → or_first rest (ite dec (some p) old) ≡ or_first (ite dec (some p) rest) old
overriding (yes e) p rest old f = ap (λ o. or_first o (some p)) (f e)
overriding (no n) p rest old f = refl

-- After presences are set in bulk, a user has the new presence if there is one, and the old one else,
-- where no user is named twice.
pub bulk_set_presences-get :
    (presences s : Presences) (x : String)
    → HasDistinctUsers presences
    → get_presence (bulk_set_presences presences s) x
      ≡ or_first (get_presence presences x) (get_presence s x)
unfolding bulk_set_presences get_presence set_presence lookup
bulk_set_presences-get [] s x h = refl
bulk_set_presences-get ((u, p) ∷ rest) s x h =
    bulk_set_presences-get rest (insert str_discrete u p s) x h.1
    ∙ ap (or_first (lookup str_discrete x rest)) (lookup-insert str_discrete u x p s)
    ∙ overriding (str_discrete u x) p (lookup str_discrete x rest) (lookup str_discrete x s)
        (λ e. subst (λ k. lookup str_discrete k rest ≡ none) e h.0)
