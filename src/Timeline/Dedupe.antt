-- ===== src/Timeline/Dedupe.antt =====
-- shared/api/message-query.ts: `dedupeMessages` and `flattenMessagePages`, by id and in order.
use link_lynx_ai.Common.{
  ℕ, inl, inr, String, ◌≡◌, refl, ap, sym, ◌∙◌, Option, none, some, ite, List, [], ◌∷◌, arith,
  str_discrete, big_int, lookup, insert, lookup-insert, All, Option-cases, true, dec_lt,
}
use link_lynx_ai.Timeline.Data.{Message, MessagePage}
use link_lynx_ai.Timeline.Merge.{merge_messages-id}
use link_lynx_ai.Timeline.Append.{find_message, HasDistinctIds}
use link_lynx_ai.Timeline.{
  merged, merge_messages, collect, collect_step, values, all_items, flatten_message_pages,
}
use link_lynx_ai.Timeline.Order.{
  has_time, HasTimes, IsTimeline, sort_messages-IsTimeline, find-sort_messages,
  sort_messages-HasDistinctIds,
}

-- A message by all its snapshots in order of arrival: the reference for the map of `dedupeMessages`.
unfoldable pub settled : String → Option Message → List Message → Option Message
settled k o [] = o
settled k o (x ∷ xs) = settled k (ite (str_discrete x.id k) (some (merged o x)) o) xs

-- The invariant of the map: each message stands under its id, and under no second one.
record IsIndex (m : List (String × Message)) : Type 0 where
  keyed : All (λ e. e.0 ≡ e.1.id) m
  distinct : HasDistinctIds (values m)

lookup-find :
    (k : String) (m : List (String × Message))
    → All (λ e. e.0 ≡ e.1.id) m
    → lookup str_discrete k m ≡ find_message k (values m)
unfolding lookup find_message
lookup-find k [] h = refl
lookup-find k ((j, x) ∷ m) h = ground (arith, lookup-find k m h.1)

find_message-id :
    (k : String) (c : Message) (xs : List Message) → find_message k xs ≡ some c → c.id ≡ k
unfolding find_message
find_message-id k c [] h = cc
find_message-id k c (x ∷ xs) h = ground (arith, find_message-id k c xs)

module _ (i : String) (x : Message) (own : i ≡ x.id) where
  insert-keyed :
      (m : List (String × Message))
      → All (λ e. e.0 ≡ e.1.id) m
      → All (λ e. e.0 ≡ e.1.id) (insert str_discrete i x m)
  unfolding insert
  insert-keyed [] h = (own, tt)
  insert-keyed ((j, y) ∷ m) h = ground (arith, insert-keyed m h.1)

  find-insert :
      (k : String) (m : List (String × Message))
      → All (λ e. e.0 ≡ e.1.id) m
      → find_message k (values (insert str_discrete i x m))
        ≡ ite (str_discrete i k) (some x) (find_message k (values m))
  find-insert k m h =
      sym (lookup-find k (insert str_discrete i x m) (insert-keyed m h))
      ∙ lookup-insert str_discrete i k x m
      ∙ ap (ite (str_discrete i k) (some x)) (lookup-find k m h)

  insert-distinct :
      (m : List (String × Message))
      → IsIndex m
      → HasDistinctIds (values (insert str_discrete i x m))
  unfolding insert find_message
  insert-distinct [] h = (refl, tt)
  insert-distinct ((j, y) ∷ m) h = ground (
    arith,
    find-insert y.id m h.keyed.1,
    insert-distinct m (record { keyed = h.keyed.1; distinct = h.distinct.1 }),
  )

  insert-IsIndex : (m : List (String × Message)) → IsIndex m → IsIndex (insert str_discrete i x m)
  insert-IsIndex m h = record { keyed = insert-keyed m h.keyed; distinct = insert-distinct m h }

merged-id :
    (x : Message) (m : List (String × Message))
    → IsIndex m
    → x.id ≡ (merged (lookup str_discrete x.id m) x).id
merged-id x m h = elim (Option-cases (find_message x.id (values m))) [
  | inl e ↦ rw (lookup-find x.id m h.keyed, e) refl
  | inr (c, e) ↦
      rw (lookup-find x.id m h.keyed, e)
        (sym (merge_messages-id c x (find_message-id x.id c (values m) e)))
]

collect_step-IsIndex :
    (x : Message) (m : List (String × Message)) → IsIndex m → IsIndex (collect_step m x)
collect_step-IsIndex x m h =
    insert-IsIndex x.id (merged (lookup str_discrete x.id m) x) (merged-id x m h) m h

collect-IsIndex :
    (m : List (String × Message)) (xs : List Message) → IsIndex m → IsIndex (collect m xs)
unfolding collect
collect-IsIndex m [] h = h
collect-IsIndex m (x ∷ xs) h = collect-IsIndex (collect_step m x) xs (collect_step-IsIndex x m h)

collect-settled :
    (k : String) (m : List (String × Message)) (xs : List Message)
    → IsIndex m
    → find_message k (values (collect m xs)) ≡ settled k (find_message k (values m)) xs
unfolding collect settled
collect-settled k m [] h = refl
collect-settled k m (x ∷ xs) h =
    collect-settled k (collect_step m x) xs (collect_step-IsIndex x m h)
    ∙ ap (λ o. settled k o xs)
        (find-insert x.id (merged (lookup str_discrete x.id m) x) (merged-id x m h) k m h.keyed
          ∙ same_merge)
  where
    same_merge :
        ite
          (str_discrete x.id k)
          (some (merged (lookup str_discrete x.id m) x))
          (find_message k (values m))
        ≡ ite
            (str_discrete x.id k)
            (some (merged (find_message k (values m)) x))
            (find_message k (values m))
    same_merge = ground (arith, lookup-find x.id m h.keyed)

module _ (get_time : String → Option ℕ) where
  merged-has_time :
      (o : Option Message) (x : Message)
      → ((c : Message) → o ≡ some c → has_time get_time c ≡ true)
      → has_time get_time x ≡ true
      → has_time get_time (merged o x) ≡ true
  unfolding merge_messages
  merged-has_time none x h t = t
  merged-has_time (some c) x h t = elim (dec_lt (big_int x.version) (big_int c.version)) [
    | yes older ↦ ground (arith, h c refl)
    | no newer ↦ ground (arith)
  ]

  lookup-has_time :
      (k : String) (m : List (String × Message)) (c : Message)
      → HasTimes get_time (values m)
      → lookup str_discrete k m ≡ some c
      → has_time get_time c ≡ true
  unfolding lookup
  lookup-has_time k [] c h e = cc
  lookup-has_time k ((j, x) ∷ m) c h e = ground (arith, lookup-has_time k m c h.1)

  insert-HasTimes :
      (k : String) (x : Message) (m : List (String × Message))
      → has_time get_time x ≡ true
      → HasTimes get_time (values m)
      → HasTimes get_time (values (insert str_discrete k x m))
  unfolding insert
  insert-HasTimes k x [] t h = (t, tt)
  insert-HasTimes k x ((j, y) ∷ m) t h = ground (arith, insert-HasTimes k x m t h.1)

  collect-HasTimes :
      (m : List (String × Message)) (xs : List Message)
      → HasTimes get_time (values m)
      → HasTimes get_time xs
      → HasTimes get_time (values (collect m xs))
  unfolding collect
  collect-HasTimes m [] h t = h
  collect-HasTimes m (x ∷ xs) h t =
      collect-HasTimes (collect_step m x) xs
        (insert-HasTimes x.id (merged (lookup str_discrete x.id m) x) m
          (merged-has_time (lookup str_discrete x.id m) x (λ c. lookup-has_time x.id m c h) t.0) h)
        t.1

  empty-IsIndex : IsIndex []
  empty-IsIndex = record { keyed = tt; distinct = tt }

  -- If the timestamp of every message is a time, and not NaN, the timeline is in order of time, and
  -- of id at one time.
  pub flatten_message_pages-IsTimeline :
      (ps : List MessagePage)
      → HasTimes get_time (all_items ps)
      → IsTimeline get_time (flatten_message_pages get_time ps)
  unfolding flatten_message_pages
  flatten_message_pages-IsTimeline ps h =
      sort_messages-IsTimeline get_time (values (collect [] (all_items ps)))
        (collect-HasTimes [] (all_items ps) tt h)

  -- No message stands in it twice.
  pub flatten_message_pages-HasDistinctIds :
      (ps : List MessagePage) → HasDistinctIds (flatten_message_pages get_time ps)
  unfolding flatten_message_pages
  flatten_message_pages-HasDistinctIds ps =
      sort_messages-HasDistinctIds get_time (values (collect [] (all_items ps)))
        (collect-IsIndex [] (all_items ps) empty-IsIndex).distinct

  -- Under each id it holds all snapshots of that id, merged in the order of the pages.
  pub find-flatten_message_pages :
      (k : String) (ps : List MessagePage)
      → find_message k (flatten_message_pages get_time ps) ≡ settled k none (all_items ps)
  unfolding flatten_message_pages find_message
  find-flatten_message_pages k ps =
      find-sort_messages get_time k (values (collect [] (all_items ps)))
        (collect-IsIndex [] (all_items ps) empty-IsIndex).distinct
      ∙ collect-settled k [] (all_items ps) empty-IsIndex
