-- ===== src/Realtime/Frames.antt =====
-- ws-auth-bridge.tsx: the texts that are sent on a socket, and the subscriptions that are read in them.
use Prim.Native.Char.{Char, code}
use Prim.Native.String
use text.Mathlib.TextLemmas.{cons-append, nil-append}
use link_lynx_ai.Common.{
  String, Bool, true, false, not, ◌&&◌, Option, none, some, ◌≡◌, refl, arith, leb, after_prefix,
  after_prefix-append, is_empty, if◌then◌else◌, ◌==◌,
}
use link_lynx_ai.Timeline.Contract.{all_digits, is_strict_decimal_string, is_positive_decimal}
use link_lynx_ai.Realtime.Target.{
  Target, guild, dm, IsSafeTarget, resolve_active_subscription_target,
  resolve_active_subscription_target-IsSafeTarget,
}
use link_lynx_ai.Realtime.Bridge.{Frame, identify, reauthenticate, subscribe, unsubscribe}

infixr 5 ◌++◌
abbrev ◌++◌ : String → String → String
s ++ t = String.◌++◌ s t

-- `quote` is `JSON.stringify` on a string.
unfoldable pub text_of : (String → String) → Frame → String
text_of quote (identify ticket) =
    "{\"type\":\"auth.identify\",\"d\":{\"method\":\"ticket\",\"ticket\":" ++ quote ticket ++ "}}"
text_of quote (reauthenticate token) =
    "{\"type\":\"auth.reauthenticate\",\"d\":{\"idToken\":" ++ quote token ++ "}}"
text_of quote (subscribe (guild g c)) =
    "{\"type\":\"message.subscribe\",\"d\":{\"guild_id\":" ++ g ++ ",\"channel_id\":" ++ c ++ "}}"
text_of quote (subscribe (dm c)) = "{\"type\":\"dm.subscribe\",\"d\":{\"channel_id\":" ++ c ++ "}}"
text_of quote (unsubscribe (guild g c)) =
    "{\"type\":\"message.unsubscribe\",\"d\":{\"guild_id\":" ++ g ++ ",\"channel_id\":" ++ c ++ "}}"
text_of quote (unsubscribe (dm c)) =
    "{\"type\":\"dm.unsubscribe\",\"d\":{\"channel_id\":" ++ c ++ "}}"

abbrev is_digit : Char → Bool
is_digit c = leb b'0' (code c) && leb (code c) b'9'

-- The digits in front and the rest, as a reader of JSON takes a number.
unfoldable pub digits : String → String × String
digits String.[] = ("", "")
digits (String.◌∷◌ c s) =
    let (front, rest) = digits s in
    if is_digit c then (String.◌∷◌ c front, rest) else ("", String.◌∷◌ c s)

abbrev at_end : Target → Option String → Option Target
at_end t none = none
at_end t (some rest) = if is_empty rest then some t else none

abbrev read_channel : (String → Target) → Option String → Option Target
read_channel make none = none
read_channel make (some s) =
    let (channel_id, rest) = digits s in at_end (make channel_id) (after_prefix "}}" rest)

abbrev read_guild : Option String → Option Target
read_guild none = none
read_guild (some s) =
    let (guild_id, rest) = digits s in
    read_channel (guild guild_id) (after_prefix ",\"channel_id\":" rest)

abbrev or_read : Option Target → Option Target → Option Target
or_read none o = o
or_read (some t) o = some t

-- The target that the text subscribes to, if it is a subscription with unquoted ids.
unfoldable pub read_subscription : String → Option Target
unfolding after_prefix digits is_empty
read_subscription s =
    or_read (read_guild (after_prefix "{\"type\":\"message.subscribe\",\"d\":{\"guild_id\":" s))
      (read_channel dm (after_prefix "{\"type\":\"dm.subscribe\",\"d\":{\"channel_id\":" s))

-- The text does not begin with a digit.
abbrev stops : String → Bool
stops String.[] = true
stops (String.◌∷◌ c s) = not (is_digit c)

digits-append : (s t : String) → all_digits s ≡ true → stops t ≡ true → digits (s ++ t) ≡ (s, t)
unfolding digits
digits-append String.[] String.[] h k = refl
digits-append String.[] (String.◌∷◌ c t) h k = rw (nil-append (String.◌∷◌ c t)) (ground arith)
digits-append (String.◌∷◌ c s) t h k =
    let e = digits-append s t in rw (cons-append c s t) (ground (arith, e))

positive-digits : (s : String) → is_positive_decimal s ≡ true → all_digits s ≡ true
unfolding is_positive_decimal is_strict_decimal_string is_empty
positive-digits String.[] h = refl
positive-digits (String.◌∷◌ c String.[]) h = ground arith
positive-digits (String.◌∷◌ c (String.◌∷◌ d s)) h = ground arith

-- Two texts differ before one of them ends.
unfoldable differ : String → String → Bool
differ String.[] q = false
differ (String.◌∷◌ c p) String.[] = false
differ (String.◌∷◌ c p) (String.◌∷◌ d q) =
    let rest = differ p q in if code c == code d then rest else true

after_prefix-other : (p q s : String) → differ p q ≡ true → after_prefix p (q ++ s) ≡ none
unfolding differ after_prefix
after_prefix-other String.[] q s h = cc
after_prefix-other (String.◌∷◌ c p) String.[] s h = cc
after_prefix-other (String.◌∷◌ c p) (String.◌∷◌ d q) s h =
    rw (cons-append d q s) (ground (arith, after_prefix-other p q s))

read_channel-digits :
    (make : String → Target) (c : String)
    → all_digits c ≡ true
    → read_channel make (some (c ++ "}}")) ≡ some (make c)
unfolding after_prefix is_empty
read_channel-digits make c h = rw (digits-append c "}}" h refl) refl

stops-append : (s t : String) → is_empty s ≡ false → stops (s ++ t) ≡ stops s
unfolding is_empty
stops-append String.[] t h = cc
stops-append (String.◌∷◌ c s) t h = rw (cons-append c s t) refl

read_guild-digits :
    (g c : String)
    → all_digits g ≡ true
    → all_digits c ≡ true
    → read_guild (some (g ++ ",\"channel_id\":" ++ c ++ "}}")) ≡ some (guild g c)
unfolding is_empty
read_guild-digits g c h k =
    let next = stops-append ",\"channel_id\":" (c ++ "}}") refl in
    rw (digits-append g (",\"channel_id\":" ++ c ++ "}}") h next)
      (rw (after_prefix-append ",\"channel_id\":" (c ++ "}}")) (read_channel-digits (guild g) c k))

is_other :
    differ "{\"type\":\"message.subscribe\",\"d\":{\"guild_id\":"
      "{\"type\":\"dm.subscribe\",\"d\":{\"channel_id\":"
    ≡ true
unfolding differ
is_other = refl

read_subscription-text_of :
    (quote : String → String) (t : Target)
    → IsSafeTarget t
    → read_subscription (text_of quote (subscribe t)) ≡ some t
unfolding read_subscription text_of
read_subscription-text_of quote (guild g c) (h, k) =
    let tail = g ++ ",\"channel_id\":" ++ c ++ "}}" in
    rw
      (
        after_prefix-append "{\"type\":\"message.subscribe\",\"d\":{\"guild_id\":" tail,
        read_guild-digits g c (positive-digits g h) (positive-digits c k),
      )
      refl
read_subscription-text_of quote (dm c) h =
    rw
      (
        after_prefix-other "{\"type\":\"message.subscribe\",\"d\":{\"guild_id\":"
            "{\"type\":\"dm.subscribe\",\"d\":{\"channel_id\":" (c ++ "}}") is_other,
        after_prefix-append "{\"type\":\"dm.subscribe\",\"d\":{\"channel_id\":" (c ++ "}}"),
        read_channel-digits dm c (positive-digits c h),
      )
      refl

-- Whatever the route, the text that subscribes to its target is read back to that target by a reader
-- that takes the ids as unquoted digits: no digit is lost and nothing of the route breaks the text.
pub read_subscription-resolve :
    (decode : String → Option String) (quote : String → String) (pathname : String)
    (guild_id channel_id : Option String) (t : Target)
    → resolve_active_subscription_target decode pathname guild_id channel_id ≡ some t
    → read_subscription (text_of quote (subscribe t)) ≡ some t
read_subscription-resolve decode quote pathname guild_id channel_id t e =
    read_subscription-text_of quote t
      (resolve_active_subscription_target-IsSafeTarget decode pathname guild_id channel_id t e)
