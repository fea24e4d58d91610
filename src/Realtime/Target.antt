-- ===== src/Realtime/Target.antt =====
-- ws-auth-bridge.tsx: the channel that the current route subscribes to.
use Prim.Native.Char.{code}
use link_lynx_ai.Common.{
  String, Bool, true, false, not, ◌&&◌, ◌||◌, Option, none, some, trim, is_empty, after_prefix,
  if◌then◌else◌, ◌==◌, ◌≡◌, arith, Bool-cases, inl, inr,
}
use link_lynx_ai.Timeline.{same}
use link_lynx_ai.Timeline.Contract.{is_strict_decimal_string, is_positive_decimal}
use link_lynx_ai.Net.Url.{strip_slashes}

pub data Target : Type 0 where
  guild : String → String → Target
  dm : String → Target

-- The comparison of `kind`, `guildId` and `channelId`.
abbrev pub same_target : Target → Target → Bool
same_target (guild g c) (guild h d) = same g h && same c d
same_target (dm c) (dm d) = same c d
same_target _ _ = false

abbrev pub has_slash : String → Bool
has_slash String.[] = false
has_slash (String.◌∷◌ c s) = if code c == b'/' then true else has_slash s

abbrev pub guild_target : String → String → Option Target
guild_target guild_id channel_id =
    if not (is_empty guild_id)
      && not (is_empty channel_id)
      && is_strict_decimal_string guild_id
      && is_strict_decimal_string channel_id
      && not (same guild_id "0")
      && not (same channel_id "0")
    then some (guild guild_id channel_id)
    else none

abbrev guild_target_of : Option String → Option String → Option Target
guild_target_of (some guild_id) (some channel_id) = guild_target (trim guild_id) (trim channel_id)
guild_target_of (some guild_id) none = none
guild_target_of none channel_id = none

-- `safeDecodeRouteSegment` gave the channel id.
abbrev dm_target : Option String → Option Target
dm_target none = none
dm_target (some channel_id) =
    if is_empty (trim channel_id)
      || not (is_strict_decimal_string channel_id)
      || same channel_id "0"
    then none
    else some (dm channel_id)

-- A rest with a slash has more than one route segment.
abbrev dm_target_of : (String → Option String) → Option String → Option Target
dm_target_of decode none = none
dm_target_of decode (some rest) = if has_slash rest then none else dm_target (decode rest)

abbrev or_dm : Option Target → Option Target → Option Target
or_dm none other = other
or_dm (some t) other = some t

-- `decode` is `decodeURIComponent`, `none` where it throws.
unfoldable pub resolve_active_subscription_target :
    (String → Option String) → String → Option String → Option String → Option Target
unfolding after_prefix is_strict_decimal_string strip_slashes trim is_empty
resolve_active_subscription_target decode pathname guild_id channel_id =
    or_dm (guild_target_of guild_id channel_id)
      (dm_target_of decode (after_prefix "/channels/me/" (strip_slashes (trim pathname))))

-- The ids that may be written into a subscribe message without quotes.
abbrev pub IsSafeTarget : Target → Type 0
IsSafeTarget (guild g c) = (is_positive_decimal g ≡ true) × (is_positive_decimal c ≡ true)
IsSafeTarget (dm c) = is_positive_decimal c ≡ true

guild_target-IsSafeTarget : (g c : String) (t : Target) → guild_target g c ≡ some t → IsSafeTarget t
unfolding is_positive_decimal
guild_target-IsSafeTarget g c t e = ground arith

dm_target-IsSafeTarget : (o : Option String) (t : Target) → dm_target o ≡ some t → IsSafeTarget t
unfolding is_positive_decimal
dm_target-IsSafeTarget o t e = ground arith

guild_target_of-IsSafeTarget :
    (g c : Option String) (t : Target) → guild_target_of g c ≡ some t → IsSafeTarget t
guild_target_of-IsSafeTarget (some g) (some c) t e = guild_target-IsSafeTarget (trim g) (trim c) t e
guild_target_of-IsSafeTarget (some g) none t e = cc
guild_target_of-IsSafeTarget none c t e = cc

dm_target_of-IsSafeTarget :
    (decode : String → Option String) (o : Option String) (t : Target)
    → dm_target_of decode o ≡ some t
    → IsSafeTarget t
dm_target_of-IsSafeTarget decode none t e = cc
dm_target_of-IsSafeTarget decode (some rest) t e = elim (Bool-cases (has_slash rest)) [
  | inl many ↦ absurd (ground arith)
  | inr one ↦ dm_target-IsSafeTarget (decode rest) t (ground arith)
]

or_dm-IsSafeTarget :
    (a b : Option Target) (t : Target)
    → ((u : Target) → a ≡ some u → IsSafeTarget u)
    → ((u : Target) → b ≡ some u → IsSafeTarget u)
    → or_dm a b ≡ some t
    → IsSafeTarget t
or_dm-IsSafeTarget none b t f g e = g t e
or_dm-IsSafeTarget (some u) b t f g e = f t e

-- Whatever the route, the ids of the target are positive decimal numbers without leading zeros.
pub resolve_active_subscription_target-IsSafeTarget :
    (decode : String → Option String) (pathname : String) (guild_id channel_id : Option String)
    (t : Target)
    → resolve_active_subscription_target decode pathname guild_id channel_id ≡ some t
    → IsSafeTarget t
unfolding resolve_active_subscription_target
resolve_active_subscription_target-IsSafeTarget decode pathname guild_id channel_id t e =
    or_dm-IsSafeTarget (guild_target_of guild_id channel_id)
      (dm_target_of decode (after_prefix "/channels/me/" (strip_slashes (trim pathname)))) t
      (guild_target_of-IsSafeTarget guild_id channel_id)
      (dm_target_of-IsSafeTarget decode
        (after_prefix "/channels/me/" (strip_slashes (trim pathname))))
      e
