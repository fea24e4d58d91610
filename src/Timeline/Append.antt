-- ===== src/Timeline/Append.antt =====
-- shared/api/message-query.ts, `appendMessageToPages`, seen as a map from ids to messages.
use mathlib.Core.List.{map-append}
use mathlib.Core.Option
use link_lynx_ai.Common.{
  String, ◌≡◌, refl, ap, sym, ◌∙◌, Option, none, some, ite, List, [], ◌∷◌, ◌++◌, map, arith,
  str_discrete, is_some, any, Option-cases, inl, inr,
}
use link_lynx_ai.Timeline.Data.{Message, MessagePage, MessagePagesData}
use link_lynx_ai.Timeline.Merge.{merge_messages-id, merge_messages_idem, merge_messages_self}
use link_lynx_ai.Timeline.{
  merge_messages, merged, all_items, update_item, update_page, has_message, prepend, same,
  single_page, append_message_to_pages, append_to_loaded,
}

-- The first message with an id.
unfoldable pub find_message : String → List Message → Option Message
find_message k [] = none
find_message k (x ∷ xs) = ite (str_discrete x.id k) (some x) (find_message k xs)

abbrev first_of_two : Option Message → Option Message → Option Message
first_of_two none o = o
first_of_two (some x) o = some x

find_message-append :
    (k : String) (xs ys : List Message)
    → find_message k (xs ++ ys) ≡ first_of_two (find_message k xs) (find_message k ys)
unfolding find_message
find_message-append k [] ys = refl
find_message-append k (x ∷ xs) ys = ground (arith, find_message-append k xs ys)

find_message-update :
    (m : Message) (k : String) (xs : List Message)
    → find_message k (map (update_item m) xs)
      ≡ ite
          (str_discrete m.id k)
          (Option.map (λ c. merge_messages c m) (find_message k xs))
          (find_message k xs)
unfolding find_message
find_message-update m k [] = ground arith
find_message-update m k (x ∷ xs) = ground (arith, find_message-update m k xs, merge_messages-id x m)

all_items-update :
    (m : Message) (ps : List MessagePage)
    → all_items (map (update_page m) ps) ≡ map (update_item m) (all_items ps)
unfolding all_items
all_items-update m [] = refl
all_items-update m (p ∷ ps) =
    ap (λ r. map (update_item m) p.items ++ r) (all_items-update m ps)
    ∙ sym (map-append (update_item m) p.items (all_items ps))

update_none :
    (m : Message) (xs : List Message) → find_message m.id xs ≡ none → map (update_item m) xs ≡ xs
unfolding find_message
update_none m [] h = refl
update_none m (x ∷ xs) h = ground (arith, update_none m xs)

update_twice :
    (m : Message) (xs : List Message)
    → map (update_item m) (map (update_item m) xs) ≡ map (update_item m) xs
update_twice m [] = refl
update_twice m (x ∷ xs) =
    ground (arith, update_twice m xs, merge_messages_idem x m, merge_messages-id x m)

update_page_twice :
    (m : Message) (ps : List MessagePage)
    → map (update_page m) (map (update_page m) ps) ≡ map (update_page m) ps
update_page_twice m [] = refl
update_page_twice m (p ∷ ps) = ground (arith, update_twice m p.items, update_page_twice m ps)

update_page-none :
    (m : Message) (ps : List MessagePage)
    → find_message m.id (all_items ps) ≡ none
    → map (update_page m) ps ≡ ps
unfolding all_items
update_page-none m [] h = refl
update_page-none m (p ∷ ps) h = ground (
  arith,
  find_message-append m.id p.items (all_items ps),
  update_none m p.items,
  update_page-none m ps,
)

any-same :
    (m : Message) (xs : List Message)
    → any (λ item. same item.id m.id) xs ≡ is_some (find_message m.id xs)
unfolding find_message
any-same m [] = refl
any-same m (x ∷ xs) = ground (arith, any-same m xs)

has_message-find :
    (m : Message) (ps : List MessagePage)
    → has_message m ps ≡ is_some (find_message m.id (all_items ps))
unfolding all_items find_message
has_message-find m [] = refl
has_message-find m (p ∷ ps) = ground (
  arith,
  any-same m p.items,
  has_message-find m ps,
  find_message-append m.id p.items (all_items ps),
)

-- The pages that `appendMessageToPages` leaves, by whether the id is known.
loaded_known :
    (d : MessagePagesData) (m c : Message) (ps : List MessagePage)
    → find_message m.id (all_items ps) ≡ some c
    → append_to_loaded d m ps ≡ record d { pages = map (update_page m) ps }
unfolding append_to_loaded find_message all_items
loaded_known d m c [] h = cc
loaded_known d m c (p ∷ ps) h = rw (has_message-find m (p ∷ ps), h, append_to_loaded)

loaded_unknown :
    (d : MessagePagesData) (m : Message) (p : MessagePage) (ps : List MessagePage)
    → find_message m.id (all_items (p ∷ ps)) ≡ none
    → append_to_loaded d m (p ∷ ps) ≡ record d { pages = prepend m (p ∷ ps) }
unfolding append_to_loaded
loaded_unknown d m p ps h =
    rw (has_message-find m (p ∷ ps), h, append_to_loaded)
      (ap (λ qs. record d { pages = prepend m qs }) (update_page-none m (p ∷ ps) h))

-- The messages of the cache entry, which may be absent.
abbrev pub items_of : Option MessagePagesData → List Message
items_of none = []
items_of (some entry) = all_items entry.pages

-- What the cache should hold under an id after a message has arrived.
abbrev pub Upserts : Message → List Message → List Message → Type 0
Upserts m before after =
    (k : String)
    → find_message k after
      ≡ ite (str_discrete m.id k) (some (merged (find_message k before) m)) (find_message k before)

loaded-Upserts :
    (d : MessagePagesData) (m : Message) (ps : List MessagePage)
    → Upserts m (all_items ps) (all_items (append_to_loaded d m ps).pages)
unfolding append_to_loaded all_items find_message
loaded-Upserts d m [] k = ground arith
loaded-Upserts d m (p ∷ ps) k = elim (Option-cases (find_message m.id (all_items (p ∷ ps)))) [
  | inl e ↦ rw (loaded_unknown d m p ps e) (ground arith)
  | inr (c, e) ↦
      rw (loaded_known d m c (p ∷ ps) e, all_items-update m (p ∷ ps))
        (ground (arith, find_message-update m k (all_items (p ∷ ps))))
]

-- After a message has arrived the cache holds it under its id, merged into what was there, and
-- holds what it held under every other id.
pub append_message_to_pages-Upserts :
    (d : Option MessagePagesData) (m : Message)
    → Upserts m (items_of d) (all_items (append_message_to_pages d m).pages)
unfolding append_message_to_pages find_message all_items
append_message_to_pages-Upserts none m k = ground arith
append_message_to_pages-Upserts (some d) m k = loaded-Upserts d m d.pages k

-- Pages that hold the message and that it would not change are left as they are.
IsSettled : Message → List MessagePage → Type 0
IsSettled m ps =
    (c : Message) × (find_message m.id (all_items ps) ≡ some c) × (map (update_page m) ps ≡ ps)

loaded_settled :
    (d : MessagePagesData) (m : Message) (ps : List MessagePage)
    → IsSettled m ps
    → append_to_loaded d m ps ≡ record d { pages = ps }
unfolding IsSettled
loaded_settled d m ps (c, found, fixed) =
    loaded_known d m c ps found ∙ ap (λ qs. record d { pages = qs }) fixed

prepend-IsSettled :
    (m : Message) (p : MessagePage) (ps : List MessagePage)
    → find_message m.id (all_items (p ∷ ps)) ≡ none
    → IsSettled m (prepend m (p ∷ ps))
unfolding IsSettled find_message all_items
prepend-IsSettled m p ps h =
    (m, ground arith, ground (arith, update_page-none m (p ∷ ps) h, merge_messages_self m))

loaded-IsSettled :
    (d : MessagePagesData) (m : Message) (ps : List MessagePage)
    → IsSettled m (append_to_loaded d m ps).pages
unfolding IsSettled append_to_loaded all_items find_message
loaded-IsSettled d m [] = (m, ground arith, ground (arith, merge_messages_self m))
loaded-IsSettled d m (p ∷ ps) = elim (Option-cases (find_message m.id (all_items (p ∷ ps)))) [
  | inl e ↦ rw (loaded_unknown d m p ps e) (prepend-IsSettled m p ps e)
  | inr (c, e) ↦ rw (loaded_known d m c (p ∷ ps) e) (
    merge_messages c m,
    rw (all_items-update m (p ∷ ps), find_message-update m m.id (all_items (p ∷ ps)))
        (ground arith),
    update_page_twice m (p ∷ ps),
  )
]

-- The same message once more changes nothing.
pub append_message_to_pages_idem :
    (d : Option MessagePagesData) (m : Message)
    → append_message_to_pages (some (append_message_to_pages d m)) m ≡ append_message_to_pages d m
unfolding append_message_to_pages
append_message_to_pages_idem none m =
    loaded_settled (single_page m) m _ (loaded-IsSettled (single_page m) m [])
append_message_to_pages_idem (some d) m =
    loaded_settled (append_to_loaded d m d.pages) m _ (loaded-IsSettled d m d.pages)

-- No id stands twice.
abbrev pub HasDistinctIds : List Message → Type 0
HasDistinctIds [] = Unit
HasDistinctIds (x ∷ xs) = (find_message x.id xs ≡ none) × HasDistinctIds xs

update-HasDistinctIds :
    (m : Message) (xs : List Message) → HasDistinctIds xs → HasDistinctIds (map (update_item m) xs)
update-HasDistinctIds m [] h = tt
update-HasDistinctIds m (x ∷ xs) h = ground (
  arith,
  update-HasDistinctIds m xs h.1,
  find_message-update m x.id xs,
  find_message-update m m.id xs,
  merge_messages-id x m,
)

loaded-HasDistinctIds :
    (d : MessagePagesData) (m : Message) (ps : List MessagePage)
    → HasDistinctIds (all_items ps)
    → HasDistinctIds (all_items (append_to_loaded d m ps).pages)
unfolding append_to_loaded all_items find_message
loaded-HasDistinctIds d m [] h = (refl, tt)
loaded-HasDistinctIds d m (p ∷ ps) h =
    elim (Option-cases (find_message m.id (all_items (p ∷ ps)))) [
      | inl e ↦ rw (loaded_unknown d m p ps e) (e, h)
      | inr (c, e) ↦
          rw (loaded_known d m c (p ∷ ps) e, all_items-update m (p ∷ ps))
            (update-HasDistinctIds m (all_items (p ∷ ps)) h)
    ]

-- If no message stands twice in the cache entry, none does after a message has arrived.
pub append_message_to_pages-HasDistinctIds :
    (d : Option MessagePagesData) (m : Message)
    → HasDistinctIds (items_of d)
    → HasDistinctIds (all_items (append_message_to_pages d m).pages)
unfolding append_message_to_pages all_items find_message
append_message_to_pages-HasDistinctIds none m h = (refl, tt)
append_message_to_pages-HasDistinctIds (some d) m h = loaded-HasDistinctIds d m d.pages h
