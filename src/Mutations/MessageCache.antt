-- ===== src/Mutations/MessageCache.antt =====
-- shared/api/mutations/message-cache.ts, and the mutations of use-edit-message.ts and
-- use-message-actions.ts that write to the cache ahead of the answer.
use link_lynx_ai.Common.{String, Bool, true, false, ◌&&◌, List, [], ◌∷◌, some}
use link_lynx_ai.Timeline.{same, append_message_to_pages}
use link_lynx_ai.Timeline.Data.{Message}
use link_lynx_ai.Guilds.Client.{Outcome, returned, thrown}
use link_lynx_ai.Mutations.Queries.{QueryKey, Entry, QueryClient}

abbrev pub is_channel_messages_query : String → QueryKey → Bool
is_channel_messages_query channel_id (kind ∷ guild_id ∷ key_channel ∷ rest) =
    same kind "messages" && same key_channel channel_id
is_channel_messages_query channel_id _ = false

module _ {S : Type 0} (client : QueryClient S) where
  abbrev pub snapshot_channel_message_queries : S → String → List Entry
  snapshot_channel_message_queries s channel_id =
      client.get_queries_data s (is_channel_messages_query channel_id)

  abbrev pub apply_to : List Entry → Message → S → S
  apply_to [] message s = s
  apply_to (e ∷ entries) message s =
      apply_to entries message
        (client.set_query_data s e.0 (λ current. some (append_message_to_pages current message)))

  unfoldable pub apply_message_to_channel_queries : String → Message → S → S
  unfolding append_message_to_pages
  apply_message_to_channel_queries channel_id message s =
      apply_to (snapshot_channel_message_queries s channel_id) message s

  abbrev pub restore_channel_message_queries : List Entry → S → S
  restore_channel_message_queries [] s = s
  restore_channel_message_queries (e ∷ entries) s =
      restore_channel_message_queries entries (client.set_query_data s e.0 (λ current. e.1))

  -- `onMutate`, then `onError` with its context or `onSuccess`. `optimistic` is the message that is
  -- shown ahead of the answer.
  abbrev pub settle : String → List Entry → Outcome Message → S → S
  settle channel_id snapshots (returned message) s =
      apply_message_to_channel_queries channel_id message s
  settle channel_id snapshots (thrown e) s = restore_channel_message_queries snapshots s

  -- `meanwhile` is what else is written to the cache while the request is awaited.
  unfoldable pub mutate_message_during : (S → S) → String → Message → Outcome Message → S → S
  unfolding apply_message_to_channel_queries
  mutate_message_during meanwhile channel_id optimistic answer s =
      settle channel_id (snapshot_channel_message_queries s channel_id) answer
        (meanwhile (apply_message_to_channel_queries channel_id optimistic s))

  -- The mutation during which nothing else is written to the cache.
  unfoldable pub mutate_message : String → Message → Outcome Message → S → S
  unfolding mutate_message_during
  mutate_message channel_id optimistic answer s =
      mutate_message_during (λ t. t) channel_id optimistic answer s

-- The optimistic messages: `now` is the current time, `next` is `String(Number(version) + 1)`.
abbrev pub deleted_ahead : String → (String → String) → Message → Message
deleted_ahead now next message = record message {
  content = "";
  edited_timestamp = some now;
  is_deleted = true;
  version = next message.version;
}

abbrev pub edited_ahead : String → String → Message → Message
edited_ahead now content message = record message { content = content; edited_timestamp = some now }
