-- ===== src/Mutations/Rollback.antt =====
-- shared/api/mutations/message-cache.ts: what is left of an optimistic change after an error.
use link_lynx_ai.Common.{
  String, Bool, true, false, ◌||◌, List, [], ◌∷◌, some, ◌≡◌, ◌≢◌, refl, ap, sym, ◌∙◌, subst, arith,
  All, inl, inr, Bool-cases, ◌⊎◌,
}
use link_lynx_ai.Timeline.{append_message_to_pages}
use link_lynx_ai.Timeline.Data.{Message, MessagePagesData}
use link_lynx_ai.Guilds.Client.{thrown, ApiError}
use link_lynx_ai.Mutations.Queries.{
  QueryKey, Entry, QueryClient, query_key_discrete, same_key, has_key, or_unchanged,
}
use link_lynx_ai.Mutations.MessageCache.{
  is_channel_messages_query, snapshot_channel_message_queries, apply_to,
  apply_message_to_channel_queries, restore_channel_message_queries, mutate_message_during,
  mutate_message,
}

same_key-eq : (k j : QueryKey) → k ≡ j → same_key k j ≡ true
same_key-eq k j e = ground arith

same_key-other : (k j : QueryKey) → k ≢ j → same_key k j ≡ false
same_key-other k j n = ground arith

pub has_key-here :
    (e : Entry) (entries : List Entry) (j : QueryKey) → e.0 ≡ j → has_key j (e ∷ entries) ≡ true
has_key-here e entries j p = ap (λ (b : Bool). b || has_key j entries) (same_key-eq e.0 j p)

pub has_key-tail :
    (e : Entry) (entries : List Entry) (j : QueryKey)
    → e.0 ≢ j
    → has_key j (e ∷ entries) ≡ has_key j entries
has_key-tail e entries j n = ap (λ (b : Bool). b || has_key j entries) (same_key-other e.0 j n)

module _ {S : Type 0} (client : QueryClient S) where
  -- A query that no entry names is not written.
  pub apply_to-other :
      (entries : List Entry) (message : Message) (s : S) (j : QueryKey)
      → has_key j entries ≡ false
      → client.get_query_data (apply_to client entries message s) j ≡ client.get_query_data s j
  apply_to-other [] message s j h = refl
  apply_to-other (e ∷ entries) message s j h = elim (query_key_discrete e.0 j) [
    | yes p ↦ absurd (true-false (sym (has_key-here e entries j p) ∙ h))
    | no n ↦
        apply_to-other entries message
          (client.set_query_data s e.0 (λ current. some (append_message_to_pages current message)))
          j (sym (has_key-tail e entries j n) ∙ h)
        ∙ client.get_set_other s e.0 j (λ current. some (append_message_to_pages current message)) n
  ]
    where
      true-false : true ≡ false → ⊥
      true-false p = cc

  -- What was saved is written back.
  restore-read :
      (entries : List Entry) (s before : S) (j : QueryKey) (data_ : MessagePagesData)
      → All (λ (e : Entry). e.1 ≡ client.get_query_data before e.0) entries
      → client.get_query_data before j ≡ some data_
      → (client.get_query_data s j ≡ some data_) ⊎ (has_key j entries ≡ true)
      → client.get_query_data (restore_channel_message_queries client entries s) j ≡ some data_
  restore-read [] s before j data_ h e (inl f) = f
  restore-read [] s before j data_ h e (inr f) = absurd (cc)
  restore-read (x ∷ entries) s before j data_ h e f = elim (query_key_discrete x.0 j) [
    | yes p ↦
        restore-read entries (client.set_query_data s x.0 (λ current. x.1)) before j data_ h.1 e
          (inl (written p))
    | no n ↦
        restore-read entries (client.set_query_data s x.0 (λ current. x.1)) before j data_ h.1 e
          (untouched n f)
  ]
    where
      written :
          x.0 ≡ j
          → client.get_query_data (client.set_query_data s x.0 (λ current. x.1)) j ≡ some data_
      written p =
          subst
            (λ k.
              client.get_query_data (client.set_query_data s x.0 (λ current. x.1)) k
              ≡ or_unchanged x.1 (client.get_query_data s x.0))
            p (client.get_set s x.0 (λ current. x.1))
          ∙ ap (λ o. or_unchanged o (client.get_query_data s x.0))
              (h.0 ∙ ap (client.get_query_data before) p ∙ e)

      untouched :
          x.0 ≢ j
          → (client.get_query_data s j ≡ some data_) ⊎ (has_key j (x ∷ entries) ≡ true)
          → (client.get_query_data (client.set_query_data s x.0 (λ current. x.1)) j ≡ some data_)
            ⊎ (has_key j entries ≡ true)
      untouched n (inl g) = inl (client.get_set_other s x.0 j (λ current. x.1) n ∙ g)
      untouched n (inr g) = inr (sym (has_key-tail x entries j n) ∙ g)

pub read_of :
    (P Q : Entry → Type 0) (entries : List Entry)
    → All (λ (e : Entry). P e × Q e) entries
    → All P entries
read_of P Q [] h = tt
read_of P Q (e ∷ entries) h = (h.0.0, read_of P Q entries h.1)

-- A query that the optimistic change did not name reads as before, and the others are saved.
saved_or_unchanged :
    {S : Type 0} (client : QueryClient S) (entries : List Entry) (message : Message) (s : S)
    (j : QueryKey) (data_ : MessagePagesData)
    → client.get_query_data s j ≡ some data_
    → (client.get_query_data (apply_to client entries message s) j ≡ some data_)
      ⊎ (has_key j entries ≡ true)
saved_or_unchanged client entries message s j data_ e = elim (Bool-cases (has_key j entries)) [
  | inl h ↦ inr h
  | inr h ↦ inl (apply_to-other client entries message s j h ∙ e)
]

-- When the request of an optimistic change fails, every query of the channel that had data reads as
-- it did before the change, whatever was written to the cache while the request was awaited: what
-- was received for it meanwhile is no longer there.
pub mutate_message_during-rollback :
    {S : Type 0} (client : QueryClient S) (meanwhile : S → S) (channel_id : String)
    (optimistic : Message) (error : ApiError) (s : S) (j : QueryKey) (data_ : MessagePagesData)
    → is_channel_messages_query channel_id j ≡ true
    → client.get_query_data s j ≡ some data_
    → client.get_query_data
        (mutate_message_during client meanwhile channel_id optimistic (thrown error) s)
        j
      ≡ some data_
unfolding mutate_message_during apply_message_to_channel_queries
mutate_message_during-rollback client meanwhile channel_id optimistic error s j data_ k e =
    let entries = snapshot_channel_message_queries client s channel_id in
    restore-read client entries (meanwhile (apply_to client entries optimistic s)) s j data_
      (read_of (λ e. e.1 ≡ client.get_query_data s e.0)
        (λ e. is_channel_messages_query channel_id e.0 ≡ true) entries
        (client.queries_read s (is_channel_messages_query channel_id)))
      e (inr (client.queries_complete s (is_channel_messages_query channel_id) j data_ k e))

-- When the request of an optimistic change fails and nothing else was written, every query that had data reads as it did before the
-- change, whatever the message that was shown meanwhile.
pub mutate_message-rollback :
    {S : Type 0} (client : QueryClient S) (channel_id : String) (optimistic : Message)
    (error : ApiError) (s : S) (j : QueryKey) (data_ : MessagePagesData)
    → client.get_query_data s j ≡ some data_
    → client.get_query_data (mutate_message client channel_id optimistic (thrown error) s) j
      ≡ some data_
unfolding mutate_message apply_message_to_channel_queries
mutate_message-rollback client channel_id optimistic error s j data_ e =
    let entries = snapshot_channel_message_queries client s channel_id in
    restore-read client entries (apply_to client entries optimistic s) s j data_
      (read_of (λ e. e.1 ≡ client.get_query_data s e.0)
        (λ e. is_channel_messages_query channel_id e.0 ≡ true) entries
        (client.queries_read s (is_channel_messages_query channel_id)))
      e (saved_or_unchanged client entries optimistic s j data_ e)
