-- ===== src/Timeline.antt =====
-- shared/api/message-query.ts: the pages of a channel's messages and the timeline made of them.
-- Ids and versions are strict decimal strings (message-contract.ts refuses others), so `BigInt`
-- and the numeric collation of `localeCompare` read them as numbers. `Date` is a parameter.
pub mod Data
pub mod Components
pub mod Contract
pub mod Decimal
pub mod Merge
pub mod Append
pub mod Order
pub mod Dedupe
mod Tests
use Prim.Native.Nat.{compare, Ordering}
use Prim.Native.String
use link_lynx_ai.Common.{
  ℕ, String, Bool, false, true, not, ◌&&◌, List, [], ◌∷◌, ◌++◌, map, Option, none, some, ite,
  dec_lt, str_discrete, big_int, lookup, insert, if◌then◌else◌, or_else, any, ap,
}
use Data.{UserStatus, offline, User, Message, MessagePage, MessagePagesData}

-- `a === b` on strings as a Boolean.
abbrev pub same : String → String → Bool
same s t = ite (str_discrete s t) true false

abbrev is_null : Option String → Bool
is_null none = true
is_null (some s) = false

abbrev is_offline : UserStatus → Bool
is_offline offline = true
is_offline _ = false

abbrev pub MessagesQueryKey : Type 0
MessagesQueryKey = String × String

-- `===` on the parts of two keys.
unfoldable pub key_discrete : Discrete MessagesQueryKey
unfolding str_discrete
key_discrete (s, c) (t, d) = elim (str_discrete s t) [
  | yes p ↦ elim (str_discrete c d) [
    | yes q ↦ yes (λ i. (p i, q i))
    | no q ↦ no (λ e. q (ap (λ (k : MessagesQueryKey). k.1) e))
  ]
  | no p ↦ no (λ e. p (ap (λ (k : MessagesQueryKey). k.0) e))
]

-- The constant first part "messages" of the key is left out.
unfoldable pub build_messages_query_key : Option String → String → MessagesQueryKey
build_messages_query_key guild_id channel_id = (or_else guild_id "dm", channel_id)

unfoldable pub is_fallback : User → Bool
is_fallback author =
    is_null author.avatar
    && is_offline author.status
    && same author.username (String.◌++◌ "user-" author.id)
    && same author.display_name (String.◌++◌ "User " author.id)

abbrev pub is_fallback_author : Message → Bool
is_fallback_author message = is_fallback message.author

-- An optional property under `{ ...current, ...incoming }`.
abbrev pub spread {ℓ} : {A : Type ℓ} → Option A → Option A → Option A
spread current none = current
spread current (some a) = some a

unfoldable pub merge_messages : Message → Message → Message
merge_messages current incoming =
    ite (dec_lt (big_int incoming.version) (big_int current.version)) current (record incoming {
      author =
          if is_fallback_author current && not (is_fallback_author incoming)
          then incoming.author
          else current.author;
      components = spread current.components incoming.components;
      flags = spread current.flags incoming.flags;
    })

-- The order by two times, or by the ids at one time. The result is NaN where a time is, and `sort`
-- takes NaN for zero.
abbrev pub order_of : Option ℕ → Option ℕ → Ordering → Ordering
order_of none right by_id = Ordering.eq
order_of (some l) none by_id = Ordering.eq
order_of (some l) (some r) by_id = elim (compare l r) [
  | Ordering.eq ↦ by_id
  | Ordering.lt ↦ Ordering.lt
  | Ordering.gt ↦ Ordering.gt
]

-- `get_time` is `new Date(s).getTime()`, counted from the first time that a `Date` can hold, and
-- `none` where it is NaN.
module _ (get_time : String → Option ℕ) where
  unfoldable pub compare_messages : Message → Message → Ordering
  compare_messages left right =
      order_of (get_time left.timestamp) (get_time right.timestamp)
        (compare (big_int left.id) (big_int right.id))

  -- `Array.prototype.sort`, which is stable, as an insertion sort. Where a time is NaN the comparison
  -- is no order, and the standard leaves the order of the result open: it is then one of the orders.
  unfoldable pub sort_insert : Message → List Message → List Message
  sort_insert m [] = m ∷ []
  sort_insert m (x ∷ xs) =
      let later = x ∷ sort_insert m xs in
      elim (compare_messages m x) [
        | Ordering.gt ↦ later
        | Ordering.lt ↦ m ∷ x ∷ xs
        | Ordering.eq ↦ m ∷ x ∷ xs
      ]

  unfoldable pub sort_messages : List Message → List Message
  sort_messages [] = []
  sort_messages (m ∷ ms) = sort_insert m (sort_messages ms)

abbrev pub merged : Option Message → Message → Message
merged none item = item
merged (some current) item = merge_messages current item

-- The loop of `dedupeMessages` over its `Map`.
abbrev pub collect_step : List (String × Message) → Message → List (String × Message)
collect_step by_id item =
    insert str_discrete item.id (merged (lookup str_discrete item.id by_id) item) by_id

unfoldable pub collect : List (String × Message) → List Message → List (String × Message)
collect by_id [] = by_id
collect by_id (item ∷ items) = collect (collect_step by_id item) items

abbrev pub values : List (String × Message) → List Message
values = map (λ e. e.1)

unfoldable pub dedupe_messages : (String → Option ℕ) → List Message → List Message
unfolding collect
dedupe_messages get_time items = sort_messages get_time (values (collect [] items))

unfoldable pub all_items : List MessagePage → List Message
all_items [] = []
all_items (p ∷ ps) = p.items ++ all_items ps

unfoldable pub flatten_message_pages : (String → Option ℕ) → List MessagePage → List Message
unfolding dedupe_messages all_items
flatten_message_pages get_time pages = dedupe_messages get_time (all_items pages)

-- The rounds of the two loops of `appendMessageToPages`.
abbrev pub update_item : Message → Message → Message
update_item message item = ite (str_discrete item.id message.id) (merge_messages item message) item

abbrev pub update_page : Message → MessagePage → MessagePage
update_page message page = record page { items = map (update_item message) page.items }

abbrev pub single_page : Message → MessagePagesData
single_page message = record {
  pages =
      record { items = message ∷ []; next_before = none; next_after = none; has_more = false } ∷ [];
  page_params = none ∷ [];
}

-- `updatedExistingMessage`
abbrev pub has_message : Message → List MessagePage → Bool
has_message message = any (λ page. any (λ item. same item.id message.id) page.items)

abbrev pub prepend : Message → List MessagePage → List MessagePage
prepend message [] = []
prepend message (first ∷ rest) = record first { items = message ∷ first.items } ∷ rest

append_to_loaded : MessagePagesData → Message → List MessagePage → MessagePagesData
append_to_loaded current message [] = single_page message
append_to_loaded current message (p ∷ ps) =
    let next_pages = map (update_page message) (p ∷ ps) in
    if has_message message (p ∷ ps)
    then record current { pages = next_pages }
    else record current { pages = prepend message next_pages }

unfoldable pub append_message_to_pages : Option MessagePagesData → Message → MessagePagesData
unfolding append_to_loaded
append_message_to_pages none message = single_page message
append_message_to_pages (some current) message = append_to_loaded current message current.pages
