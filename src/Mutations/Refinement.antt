-- ===== src/Mutations/Refinement.antt =====
-- shared/api/mutations/message-cache.ts: the queries as a map from keys to pages.
use link_lynx_ai.Common.{
  arith, String, Bool, true, false, List, [], ◌∷◌, none, some, ◌≡◌, refl, ap, sym, ◌∙◌, subst, All,
  inl, inr, if◌then◌else◌, Bool-cases,
}
use link_lynx_ai.Timeline.{append_message_to_pages, single_page}
use link_lynx_ai.Timeline.Data.{Message, MessagePagesData}
use link_lynx_ai.Guilds.Client.{thrown, ApiError}
use link_lynx_ai.Mutations.Queries.{
  QueryKey, same_key, Entry, QueryClient, query_key_discrete, has_key, or_unchanged,
  HasDistinctKeys,
}
use link_lynx_ai.Mutations.MessageCache.{
  is_channel_messages_query, snapshot_channel_message_queries, apply_to,
  apply_message_to_channel_queries, restore_channel_message_queries, mutate_message,
}
use link_lynx_ai.Mutations.Rollback.{has_key-tail, apply_to-other, read_of}

true-false : true ≡ false → ⊥
true-false p = cc

module _ {S : Type 0} (client : QueryClient S) where
  abbrev written : Entry → Message → S → S
  written e message s =
      client.set_query_data s e.0 (λ current. some (append_message_to_pages current message))

  apply_to-read :
      (entries : List Entry) (message : Message) (s : S) (j : QueryKey)
      → HasDistinctKeys entries
      → has_key j entries ≡ true
      → client.get_query_data (apply_to client entries message s) j
        ≡ some (append_message_to_pages (client.get_query_data s j) message)
  apply_to-read [] message s j d h = absurd (cc)
  apply_to-read (e ∷ entries) message s j d h = elim (query_key_discrete e.0 j) [
    | yes p ↦
        apply_to-other client entries message (written e message s) j
          (subst (λ k. has_key k entries ≡ false) p d.0)
        ∙ subst
            (λ k.
              client.get_query_data (written e message s) k
              ≡ some (append_message_to_pages (client.get_query_data s k) message))
            p (client.get_set s e.0 (λ current. some (append_message_to_pages current message)))
    | no n ↦
        apply_to-read entries message (written e message s) j d.1
          (sym (has_key-tail e entries j n) ∙ h)
        ∙ ap (λ o. some (append_message_to_pages o message))
            (client.get_set_other s e.0 j
              (λ current. some (append_message_to_pages current message)) n)
  ]

  -- A key that is saved is one of the channel's.
  has_key-matches :
      (s : S) (p : QueryKey → Bool) (entries : List Entry) (j : QueryKey)
      → All (λ (e : Entry). (e.1 ≡ client.get_query_data s e.0) × (p e.0 ≡ true)) entries
      → has_key j entries ≡ true
      → p j ≡ true
  has_key-matches s p [] j h e = absurd (cc)
  has_key-matches s p (x ∷ entries) j h e = elim (query_key_discrete x.0 j) [
    | yes q ↦ subst (λ k. p k ≡ true) q h.0.1
    | no n ↦ has_key-matches s p entries j h.1 (sym (has_key-tail x entries j n) ∙ e)
  ]

  -- Saving what has no data writes nothing back.
  restore-unloaded :
      (entries : List Entry) (s before : S) (j : QueryKey)
      → All (λ (e : Entry). e.1 ≡ client.get_query_data before e.0) entries
      → client.get_query_data before j ≡ none
      → client.get_query_data (restore_channel_message_queries client entries s) j
        ≡ client.get_query_data s j
  restore-unloaded [] s before j h e = refl
  restore-unloaded (x ∷ entries) s before j h e =
      restore-unloaded entries (client.set_query_data s x.0 (λ current. x.1)) before j h.1 e
      ∙ elim (query_key_discrete x.0 j) [
        | yes p ↦
            subst
              (λ k.
                client.get_query_data (client.set_query_data s x.0 (λ current. x.1)) k
                ≡ or_unchanged x.1 (client.get_query_data s k))
              p (client.get_set s x.0 (λ current. x.1))
            ∙ ap (λ o. or_unchanged o (client.get_query_data s j))
                (h.0 ∙ ap (client.get_query_data before) p ∙ e)
        | no n ↦ client.get_set_other s x.0 j (λ current. x.1) n
      ]

apply_to-matching :
    {S : Type 0} (client : QueryClient S) (channel_id : String) (message : Message) (s : S)
    (j : QueryKey) (data_ : MessagePagesData)
    → client.get_query_data s j ≡ some data_
    → client.get_query_data (apply_message_to_channel_queries client channel_id message s) j
      ≡ some (
          if is_channel_messages_query channel_id j
          then append_message_to_pages (some data_) message
          else data_)
unfolding apply_message_to_channel_queries
apply_to-matching client channel_id message s j data_ e =
    let p = is_channel_messages_query channel_id in
    let entries = snapshot_channel_message_queries client s channel_id in
    elim (Bool-cases (p j)) [
      | inl h ↦ rw h (
          apply_to-read client entries message s j (client.queries_distinct s p)
            (client.queries_complete s p j data_ h e)
          ∙ ap (λ o. some (append_message_to_pages o message)) e)
      | inr h ↦ elim (Bool-cases (has_key j entries)) [
        | inl k ↦ absurd (
            true-false (sym (has_key-matches client s p entries j (client.queries_read s p) k) ∙ h))
        | inr k ↦ rw h (apply_to-other client entries message s j k ∙ e)
      ]
    ]

-- The test of a key is the comparison of its first and its third part.
is_channel_messages_query-same :
    (channel_id kind guild_id key_channel : String) (rest : QueryKey)
    → is_channel_messages_query channel_id (kind ∷ guild_id ∷ key_channel ∷ rest)
      ≡ same_key (kind ∷ key_channel ∷ []) ("messages" ∷ channel_id ∷ [])
unfolding query_key_discrete
is_channel_messages_query-same channel_id kind guild_id key_channel rest = ground arith

-- The loop over the saved queries is one change of the map from keys to pages. A query with data, whose
-- key has three parts or more, gets the message if its key has "messages" as first and the channel as
-- third part, whatever the guild between them; else it stays as it is.
pub apply_message_to_channel_queries-read :
    {S : Type 0} (client : QueryClient S) (channel_id : String) (message : Message) (s : S)
    (kind guild_id key_channel : String) (rest : QueryKey) (data_ : MessagePagesData)
    → client.get_query_data s (kind ∷ guild_id ∷ key_channel ∷ rest) ≡ some data_
    → client.get_query_data
        (apply_message_to_channel_queries client channel_id message s)
        (kind ∷ guild_id ∷ key_channel ∷ rest)
      ≡ some (
          if same_key (kind ∷ key_channel ∷ []) ("messages" ∷ channel_id ∷ [])
          then append_message_to_pages (some data_) message
          else data_)
apply_message_to_channel_queries-read client channel_id message s kind guild_id key_channel rest
      data_ e =
    apply_to-matching client channel_id message s (kind ∷ guild_id ∷ key_channel ∷ rest) data_ e
    ∙ ap (λ (b : Bool). some (if b then append_message_to_pages (some data_) message else data_))
        (is_channel_messages_query-same channel_id kind guild_id key_channel rest)

-- A query of the channel that is in the cache without data is not rolled back: after the error it holds
-- the optimistic message, on a page of its own, as `setQueryData` ignores `undefined`.
pub mutate_message-unloaded :
    {S : Type 0} (client : QueryClient S) (channel_id : String) (optimistic : Message)
    (error : ApiError) (s : S) (j : QueryKey)
    → client.get_query_data s j ≡ none
    → has_key j (snapshot_channel_message_queries client s channel_id) ≡ true
    → client.get_query_data (mutate_message client channel_id optimistic (thrown error) s) j
      ≡ some (single_page optimistic)
unfolding mutate_message apply_message_to_channel_queries append_message_to_pages
mutate_message-unloaded client channel_id optimistic error s j e h =
    let p = is_channel_messages_query channel_id in
    let entries = snapshot_channel_message_queries client s channel_id in
    restore-unloaded client entries (apply_to client entries optimistic s) s j
      (read_of (λ x. x.1 ≡ client.get_query_data s x.0) (λ x. p x.0 ≡ true) entries
        (client.queries_read s p))
      e
    ∙ apply_to-read client entries optimistic s j (client.queries_distinct s p) h
    ∙ ap (λ o. some (append_message_to_pages o optimistic)) e
