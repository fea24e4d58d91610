-- ===== src/Timeline/Order.antt =====
-- shared/api/message-query.ts: the order that `compareMessages` and the sort make.
use Prim.Native.Nat.{Ordering, compare}
use link_lynx_ai.Common.{
  ℕ, ◌≤◌, ◌<◌, ◌⊎◌, inl, inr, String, ◌≡◌, ◌≢◌, refl, ◌∙◌, Option, none, some, ite, List, [], ◌∷◌,
  arith, str_discrete, big_int, All, All-map, Bool, true, is_some,
}
use link_lynx_ai.Timeline.Data.{Message}
use link_lynx_ai.Timeline.Append.{find_message, HasDistinctIds}
use link_lynx_ai.Timeline.{order_of, compare_messages, sort_insert, sort_messages}

module _ (get_time : String → Option ℕ) where
  -- The timestamp is a time, and not NaN.
  abbrev pub has_time : Message → Bool
  has_time m = is_some (get_time m.timestamp)

  abbrev IsOrdered : Option ℕ → Option ℕ → ℕ → ℕ → Type 0
  IsOrdered none t i j = ⊥
  IsOrdered (some s) none i j = ⊥
  IsOrdered (some s) (some t) i j = (s < t) ⊎ ((s ≡ t) × (i ≤ j))

  -- `x` may stand before `y`: both have a time, and it is earlier, or the same with an id that is not
  -- larger.
  abbrev pub Precedes : Message → Message → Type 0
  Precedes x y =
      IsOrdered (get_time x.timestamp) (get_time y.timestamp) (big_int x.id) (big_int y.id)

  abbrev pub IsTimeline : List Message → Type 0
  IsTimeline [] = Unit
  IsTimeline (x ∷ xs) = All (Precedes x) xs × IsTimeline xs

  order_of-IsOrdered :
      (s t : Option ℕ) (i j : ℕ)
      → is_some s ≡ true
      → is_some t ≡ true
      → ((order_of s t (compare i j) ≡ Ordering.gt) × IsOrdered t s j i)
        ⊎ ((order_of s t (compare i j) ≢ Ordering.gt) × IsOrdered s t i j)
  order_of-IsOrdered none t i j h k = absurd (cc)
  order_of-IsOrdered (some s) none i j h k = absurd (cc)
  order_of-IsOrdered (some s) (some t) i j h k = ground arith

  Precedes-compare :
      (x y : Message)
      → has_time x ≡ true
      → has_time y ≡ true
      → ((compare_messages get_time x y ≡ Ordering.gt) × Precedes y x)
        ⊎ ((compare_messages get_time x y ≢ Ordering.gt) × Precedes x y)
  unfolding compare_messages
  Precedes-compare x y h k =
      order_of-IsOrdered (get_time x.timestamp) (get_time y.timestamp) (big_int x.id) (big_int y.id)
        h k

  IsOrdered-trans :
      (s t u : Option ℕ) (i j k : ℕ) → IsOrdered s t i j → IsOrdered t u j k → IsOrdered s u i k
  IsOrdered-trans none t u i j k p q = absurd p
  IsOrdered-trans (some s) none u i j k p q = absurd p
  IsOrdered-trans (some s) (some t) none i j k p q = absurd q
  IsOrdered-trans (some s) (some t) (some u) i j k p q = omega arith

  Precedes-trans : (x y z : Message) → Precedes x y → Precedes y z → Precedes x z
  Precedes-trans x y z p q =
      IsOrdered-trans (get_time x.timestamp) (get_time y.timestamp) (get_time z.timestamp)
        (big_int x.id) (big_int y.id) (big_int z.id) p q

  All-sort_insert :
      (P : Message → Type 0) (m : Message) (xs : List Message)
      → P m
      → All P xs
      → All P (sort_insert get_time m xs)
  unfolding sort_insert
  All-sort_insert P m [] h k = (h, tt)
  All-sort_insert P m (x ∷ xs) h k = ground (arith, All-sort_insert P m xs h k.1)

  abbrev pub HasTimes : List Message → Type 0
  HasTimes = All (λ m. has_time m ≡ true)

  sort_insert-IsTimeline :
      (m : Message) (xs : List Message)
      → has_time m ≡ true
      → HasTimes xs
      → IsTimeline xs
      → IsTimeline (sort_insert get_time m xs)
  unfolding sort_insert
  sort_insert-IsTimeline m [] t ts h = (tt, tt)
  sort_insert-IsTimeline m (x ∷ xs) t ts h = elim (Precedes-compare m x t ts.0) [
    | inl (e, p) ↦
        rw (e, sort_insert)
          (All-sort_insert (Precedes x) m xs p h.0, sort_insert-IsTimeline m xs t ts.1 h.1)
    | inr (e, p) ↦
        let later = All-map (Precedes x) (Precedes m) (λ y. Precedes-trans m x y p) xs h.0 in
        ground arith
  ]

  find-sort_insert :
      (k : String) (m : Message) (xs : List Message)
      → find_message m.id xs ≡ none
      → find_message k (sort_insert get_time m xs)
        ≡ ite (str_discrete m.id k) (some m) (find_message k xs)
  unfolding sort_insert find_message
  find-sort_insert k m [] h = refl
  find-sort_insert k m (x ∷ xs) h = ground (arith, find-sort_insert k m xs)

  sort_insert-HasDistinctIds :
      (m : Message) (xs : List Message)
      → find_message m.id xs ≡ none
      → HasDistinctIds xs
      → HasDistinctIds (sort_insert get_time m xs)
  unfolding sort_insert find_message
  sort_insert-HasDistinctIds m [] h d = (refl, tt)
  sort_insert-HasDistinctIds m (x ∷ xs) h d =
      ground (arith, sort_insert-HasDistinctIds m xs, find-sort_insert x.id m xs)

  sort_messages-HasTimes : (xs : List Message) → HasTimes xs → HasTimes (sort_messages get_time xs)
  unfolding sort_messages
  sort_messages-HasTimes [] h = tt
  sort_messages-HasTimes (x ∷ xs) h =
      All-sort_insert (λ m. has_time m ≡ true) x (sort_messages get_time xs) h.0
        (sort_messages-HasTimes xs h.1)

  pub sort_messages-IsTimeline :
      (xs : List Message) → HasTimes xs → IsTimeline (sort_messages get_time xs)
  unfolding sort_messages
  sort_messages-IsTimeline [] h = tt
  sort_messages-IsTimeline (x ∷ xs) h =
      sort_insert-IsTimeline x (sort_messages get_time xs) h.0 (sort_messages-HasTimes xs h.1)
        (sort_messages-IsTimeline xs h.1)

  pub find-sort_messages :
      (k : String) (xs : List Message)
      → HasDistinctIds xs
      → find_message k (sort_messages get_time xs) ≡ find_message k xs
  unfolding sort_messages find_message
  find-sort_messages k [] h = refl
  find-sort_messages k (x ∷ xs) h = ground (
    arith,
    find-sort_insert k x (sort_messages get_time xs),
    find-sort_messages x.id xs h.1,
    find-sort_messages k xs h.1,
  )

  pub sort_messages-HasDistinctIds :
      (xs : List Message) → HasDistinctIds xs → HasDistinctIds (sort_messages get_time xs)
  unfolding sort_messages
  sort_messages-HasDistinctIds [] h = tt
  sort_messages-HasDistinctIds (x ∷ xs) h =
      sort_insert-HasDistinctIds x (sort_messages get_time xs)
        (find-sort_messages x.id xs h.1 ∙ h.0) (sort_messages-HasDistinctIds xs h.1)
