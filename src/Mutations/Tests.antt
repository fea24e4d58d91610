-- ===== src/Mutations/Tests.antt =====
-- Optimistic changes on a concrete cache of queries.
use link_lynx_ai.Common.{false, List, [], ◌∷◌, none, some, ◌≡◌, refl, str_discrete}
use link_lynx_ai.Timeline.{single_page, append_message_to_pages}
use link_lynx_ai.Timeline.Data.{Message, MessagePagesData, offline}
use link_lynx_ai.Guilds.Client.{thrown, channel_not_found}
use link_lynx_ai.Mutations.Queries.{QueryKey, Entry, query_key_discrete}
use link_lynx_ai.Mutations.MessageCache.{
  apply_message_to_channel_queries, mutate_message_during, mutate_message, deleted_ahead,
}
use link_lynx_ai.Mutations.MapClient.{map_client, read, entries_of}
use link_lynx_ai.Mutations.Rollback.{mutate_message-rollback, mutate_message_during-rollback}
use link_lynx_ai.Mutations.Refinement.{
  apply_message_to_channel_queries-read, mutate_message-unloaded,
}

abbrev message : Message
message = record {
  id = "5";
  channel_id = "10";
  author = record {
    id = "7";
    username = "eve";
    display_name = "Eve";
    avatar = none;
    status = offline;
    custom_status = none;
    bot = false;
  };
  content = "hello";
  timestamp = "2026-01-01T00:00:00Z";
  version = "1";
  edited_timestamp = none;
  is_deleted = false;
  message_type = 0;
  pinned = false;
  mention_everyone = false;
  mentions = [];
  attachments = [];
  embeds = [];
  reactions = [];
  components = none;
  flags = none;
}

abbrev pages : MessagePagesData
pages = single_page message

abbrev key : QueryKey
key = "messages" ∷ "1" ∷ "10" ∷ []

abbrev empty_key : QueryKey
empty_key = "messages" ∷ "2" ∷ "10" ∷ []

abbrev cache : List Entry
cache = (key, some pages) ∷ (empty_key, none) ∷ []

abbrev ahead : Message
ahead = deleted_ahead "2026-01-02T00:00:00Z" (λ v. "2") message

mutate_message-rollback_example :
    read (mutate_message map_client "10" ahead (thrown channel_not_found) cache) key ≡ some pages
unfolding read str_discrete query_key_discrete
mutate_message-rollback_example =
    mutate_message-rollback map_client "10" ahead channel_not_found cache key pages refl

-- A message that comes while the request is awaited.
abbrev received : List Entry → List Entry
received s = apply_message_to_channel_queries map_client "10" ahead s

mutate_message_during-rollback_example :
    read (mutate_message_during map_client received "10" ahead (thrown channel_not_found) cache) key
    ≡ some pages
unfolding read str_discrete query_key_discrete
mutate_message_during-rollback_example =
    mutate_message_during-rollback map_client received "10" ahead channel_not_found cache key pages
      refl refl

apply_message_to_channel_queries-read_example :
    read (apply_message_to_channel_queries map_client "10" ahead cache) key
    ≡ some (append_message_to_pages (some pages) ahead)
unfolding read str_discrete query_key_discrete
apply_message_to_channel_queries-read_example =
    apply_message_to_channel_queries-read map_client "10" ahead cache "messages" "1" "10" [] pages
      refl

mutate_message-unloaded_example :
    read (mutate_message map_client "10" ahead (thrown channel_not_found) cache) empty_key
    ≡ some (single_page ahead)
unfolding read str_discrete query_key_discrete entries_of
mutate_message-unloaded_example =
    mutate_message-unloaded map_client "10" ahead channel_not_found cache empty_key refl refl
