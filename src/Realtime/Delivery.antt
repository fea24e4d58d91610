-- ===== src/Realtime/Delivery.antt =====
-- ws-auth-bridge.tsx: what the frames of the server and the choice of a channel do.
use link_lynx_ai.Common.{
  ℕ, true, false, Option, none, some, ◌≡◌, ◌≢◌, arith, List, ◌∷◌, lookup, insert,
  lookup-insert_same, lookup-insert_other, Option-cases, if◌then◌else◌, inl, inr,
}
use link_lynx_ai.Timeline.{MessagesQueryKey, key_discrete, append_message_to_pages}
use link_lynx_ai.Timeline.Data.{MessagePagesData}
use link_lynx_ai.Timeline.Append.{items_of, Upserts, append_message_to_pages-Upserts}
use link_lynx_ai.Timeline.Contract.{AuthStore, MessageItem, map_message_item}
use link_lynx_ai.Realtime.Connection.{ready}
use link_lynx_ai.Realtime.Target.{Target, guild, dm, same_target}
use link_lynx_ai.Realtime.Bridge.{Bridge, Effect, send, subscribe, unsubscribe, invalidate}
use link_lynx_ai.Realtime.Handlers.{
  Payload, message_created, message_updated, message_deleted, dm_message_created, auth_ready,
  auth_reauthenticate, other, on_message, target_key, apply_realtime_message_to_cache,
  handle_socket_ready,
}
use link_lynx_ai.Realtime.Connect.{subscription_effect}

abbrev pub cached : MessagesQueryKey → Bridge → Option (MessagePagesData)
cached k b = lookup key_discrete k b.cache

-- The conversation and the message that a payload carries.
abbrev pub carried : Payload → Option (Target × MessageItem)
carried (message_created g c m) = some (guild g c, m)
carried (message_updated g c m) = some (guild g c, m)
carried (message_deleted g c m) = some (guild g c, m)
carried (dm_message_created c m) = some (dm c, m)
carried auth_ready = none
carried auth_reauthenticate = none
carried other = none

on_message-cache :
    (a : AuthStore) (active : Option Target) (s : ℕ) (p : Payload) (t : Target) (m : MessageItem)
    (b : Bridge)
    → carried p ≡ some (t, m)
    → b.socket ≡ some s
    → (on_message a active s (some p) b).cache
      ≡ insert key_discrete
          (target_key t)
          (append_message_to_pages (cached (target_key t) b) (map_message_item a m))
          b.cache
unfolding on_message apply_realtime_message_to_cache
on_message-cache a active s (message_created g c i) t m b e h = ground arith
on_message-cache a active s (message_updated g c i) t m b e h = ground arith
on_message-cache a active s (message_deleted g c i) t m b e h = ground arith
on_message-cache a active s (dm_message_created c i) t m b e h = ground arith
on_message-cache a active s auth_ready t m b e h = cc
on_message-cache a active s auth_reauthenticate t m b e h = cc
on_message-cache a active s other t m b e h = cc

-- A message that arrives on the current socket, created, updated or deleted, is merged under its id
-- into the timeline of its conversation, where every other message stays as it was, and every other
-- timeline stays as it was.
pub on_message-Upserts :
    (a : AuthStore) (active : Option Target) (s : ℕ) (p : Payload) (t : Target) (m : MessageItem)
    (k : MessagesQueryKey) (b : Bridge)
    → carried p ≡ some (t, m)
    → b.socket ≡ some s
    → target_key t ≢ k
    → let after = on_message a active s (some p) b in
      Upserts
        (map_message_item a m)
        (items_of (cached (target_key t) b))
        (items_of (cached (target_key t) after))
      × (cached k after ≡ cached k b)
on_message-Upserts a active s p t m k b e h d =
    let key = target_key t in
    let pages = append_message_to_pages (cached key b) (map_message_item a m) in
    rw (on_message-cache a active s p t m b e h, lookup-insert_same key_discrete key pages b.cache)
      (
        append_message_to_pages-Upserts (cached key b) (map_message_item a m),
        lookup-insert_other key_discrete key k pages b.cache d,
      )

-- What the subscription effect sends on its socket, the first first.
abbrev pub moved : ℕ → Option Target → Option Target → List Effect → List Effect
moved s none none sent = sent
moved s none (some t) sent = send s (subscribe t) ∷ sent
moved s (some p) none sent = send s (unsubscribe p) ∷ sent
moved s (some p) (some t) sent =
    if same_target p t then sent else send s (subscribe t) ∷ send s (unsubscribe p) ∷ sent

same_target_refl : (t : Target) → same_target t t ≡ true
same_target_refl (guild g c) = ground arith
same_target_refl (dm c) = ground arith

same_target-eq : (p t : Target) → same_target p t ≡ true → p ≡ t
same_target-eq (guild g c) (guild h d) e = ground arith
same_target-eq (guild g c) (dm d) e = cc
same_target-eq (dm c) (guild h d) e = cc
same_target-eq (dm c) (dm d) e = ground arith

-- On an open socket that is ready, the subscription ends at the active target: the old target is
-- left before the new one is joined, a target that stays is not touched, and a second run of the
-- effect sends nothing.
pub subscription_effect_lem :
    (active : Option Target) (s : ℕ) (b : Bridge)
    → b.socket ≡ some s
    → b.connection.phase ≡ ready
    → let after = subscription_effect true active b in
      (after.subscribed_target ≡ active)
      × (after.effects ≡ moved s b.subscribed_target active b.effects)
      × (subscription_effect true active after ≡ after)
unfolding subscription_effect
subscription_effect_lem none s b h r = ground arith
subscription_effect_lem (some t) s b h r = elim (Option-cases b.subscribed_target) [
  | inl e ↦ ground (arith, same_target_refl t)
  | inr (p, e) ↦ ground (arith, same_target_refl t, same_target-eq p t)
]

-- After a reconnect, the server's greeting on the current socket asks for the history of the active
-- target again, since its messages may have been missed; the first greeting does not. Either ends
-- the series of attempts.
pub on_message-auth_ready :
    (a : AuthStore) (active : Target) (s : ℕ) (b : Bridge)
    → b.socket ≡ some s
    → let after = on_message a (some active) s (some auth_ready) b in
      (after.effects ≡ (
        if b.had_ready_connection then invalidate (target_key active) ∷ b.effects else b.effects))
      × (after.had_ready_connection ≡ true)
      × (after.connection.phase ≡ ready)
      × (after.reconnect_attempt ≡ 0)
      × (after.is_service_unavailable ≡ false)
unfolding on_message handle_socket_ready
on_message-auth_ready a active s b h = ground arith
