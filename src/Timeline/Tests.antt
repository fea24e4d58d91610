-- ===== src/Timeline/Tests.antt =====
-- The timeline of message-query.ts at concrete messages. Times are written as decimal numbers, which
-- `big_int` reads in place of `Date`.
use link_lynx_ai.Common.{
  ℕ, String, Option, false, List, [], ◌∷◌, none, some, ◌≡◌, refl, str_discrete, big_int, map, arith,
  insert, is_empty, if◌then◌else◌, lookup, dec_lt,
}
use link_lynx_ai.Timeline.{
  sort_messages, sort_insert, compare_messages, merge_messages, merged, append_message_to_pages,
  flatten_message_pages, all_items,
}
use link_lynx_ai.Timeline.Data.{User, offline, Message, MessagePage, MessagePagesData}
use link_lynx_ai.Timeline.Merge.{merge_messages_comm}
use link_lynx_ai.Timeline.Append.{find_message, items_of, append_message_to_pages-Upserts}
use link_lynx_ai.Timeline.Order.{IsTimeline}
use link_lynx_ai.Timeline.Dedupe.{
  settled, flatten_message_pages-IsTimeline, find-flatten_message_pages,
}

abbrev author : User
author = record {
  id = "7";
  username = "user-7";
  display_name = "User 7";
  avatar = none;
  status = offline;
  custom_status = none;
  bot = false;
}

-- A message by its id, time, version and text.
abbrev message : String → String → String → String → Message
message id time version content = record {
  id = id;
  channel_id = "3";
  author = author;
  content = content;
  timestamp = time;
  version = version;
  edited_timestamp = none;
  is_deleted = false;
  message_type = 0;
  pinned = false;
  mention_everyone = false;
  mentions = [];
  attachments = [];
  embeds = [];
  reactions = [];
  components = none;
  flags = none;
}

abbrev page : List Message → MessagePage
page items = record { items = items; next_before = none; next_after = none; has_more = false }

-- The message "10" stands on both pages, in two versions.
abbrev two_pages : List MessagePage
two_pages =
    page (message "12" "400" "1" "c" ∷ message "10" "200" "2" "new" ∷ [])
    ∷ page (message "10" "200" "1" "old" ∷ message "9" "100" "1" "a" ∷ [])
    ∷ []

-- Times are written as numbers here; the empty text is none.
abbrev time_of : String → Option ℕ
time_of s = if is_empty s then none else some (big_int s)

abbrev loaded : MessagePagesData
loaded = record {
  pages = page (message "12" "400" "1" "c" ∷ message "10" "200" "1" "old" ∷ []) ∷ [];
  page_params = none ∷ [];
}

abbrev edited : Message
edited = message "10" "200" "2" "new"

flatten_test :
    map (λ (m : Message). m.content) (flatten_message_pages time_of two_pages)
    ≡ "a" ∷ "new" ∷ "c" ∷ []
unfolding flatten_message_pages big_int merge_messages str_discrete all_items sort_messages insert
    sort_insert compare_messages lookup dec_lt is_empty
flatten_test = refl

flatten_message_pages-IsTimeline_example :
    IsTimeline time_of (flatten_message_pages time_of two_pages)
unfolding all_items is_empty
flatten_message_pages-IsTimeline_example =
    flatten_message_pages-IsTimeline time_of two_pages (refl, (refl, (refl, (refl, tt))))

find-flatten_message_pages_example :
    find_message "10" (flatten_message_pages time_of two_pages)
    ≡ settled "10" none (all_items two_pages)
find-flatten_message_pages_example = find-flatten_message_pages time_of "10" two_pages

append_message_to_pages-Upserts_example :
    find_message "10" (all_items (append_message_to_pages (some loaded) edited).pages)
    ≡ some (merged (find_message "10" (items_of (some loaded))) edited)
unfolding str_discrete
append_message_to_pages-Upserts_example = append_message_to_pages-Upserts (some loaded) edited "10"

merge_messages_comm_example :
    merge_messages
      (merge_messages (message "10" "200" "1" "old") edited)
      (message "10" "200" "3" "x")
    ≡ merge_messages
        (merge_messages (message "10" "200" "1" "old") (message "10" "200" "3" "x"))
        edited
unfolding big_int
merge_messages_comm_example =
    merge_messages_comm (message "10" "200" "1" "old") edited (message "10" "200" "3" "x")
      (omega arith) refl refl refl refl refl
