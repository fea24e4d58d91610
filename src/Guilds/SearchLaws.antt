-- ===== src/Guilds/SearchLaws.antt =====
-- shared/api/guild-channel-api-client.ts: what `getChannel` finds.
use link_lynx_ai.Common.{
  String, Bool, false, not, ◌||◌, ◌&&◌, List, [], ◌∷◌, Option, none, some, ◌≡◌, refl, ap, sym, ◌∙◌,
  subst, arith, or_else, any, lookup, lookup-insert, lookup-insert_same, lookup-insert_other,
  lookup-remove, insert, remove, str_discrete, is_some, Option-cases, inl, inr, ◌⊎◌,
}
use link_lynx_ai.Timeline.{same}
use link_lynx_ai.Guilds.Data.{Channel, ChannelSummary, map_channel}
use link_lynx_ai.Guilds.Cache.{ChannelCache}
use link_lynx_ai.Guilds.Client.{
  Outcome, returned, thrown, map_from, index_all, forget_all, fetch_channels_for_server,
}
use link_lynx_ai.Guilds.Search.{
  Tally, BatchResult, fetch_all, note_all, found_in, or_search, search_batches,
}

abbrev pub has_id : String → List Channel → Bool
has_id x cs = any (λ c. same c.id x) cs

abbrev pub indexed : String → List (String × Channel) → Bool
indexed x index = is_some (lookup str_discrete x index)

indexed-insert :
    (k x : String) (c : Channel) (index : List (String × Channel))
    → indexed x (insert str_discrete k c index) ≡ (same k x || indexed x index)
indexed-insert k x c index = ground (arith, lookup-insert str_discrete k x c index)

indexed-remove :
    (k x : String) (index : List (String × Channel))
    → indexed x (remove str_discrete k index) ≡ (not (same k x) && indexed x index)
indexed-remove k x index = ground (arith, lookup-remove str_discrete k x index)

indexed-index_all :
    (x : String) (cs : List Channel) (index : List (String × Channel))
    → indexed x (index_all cs index) ≡ (has_id x cs || indexed x index)
indexed-index_all x [] index = refl
indexed-index_all x (c ∷ cs) index = ground (
  arith,
  indexed-index_all x cs (insert str_discrete c.id c index),
  indexed-insert c.id x c index,
)

indexed-forget_all :
    (x : String) (cs : List Channel) (index : List (String × Channel))
    → indexed x (forget_all cs index) ≡ (not (has_id x cs) && indexed x index)
indexed-forget_all x [] index = refl
indexed-forget_all x (c ∷ cs) index =
    ground
      (arith, indexed-forget_all x cs (remove str_discrete c.id index), indexed-remove c.id x index)

-- The channels that a server answers with.
abbrev pub answer_of : Outcome (List ChannelSummary) → Option (List Channel)
answer_of (returned summaries) = some (map_from map_channel 0 summaries)
answer_of (thrown e) = none

module _ (responses : String → Outcome (List ChannelSummary)) where
  -- The server lists a channel with this id.
  abbrev pub lists : String → String → Bool
  lists x server_id = has_id x (or_else (answer_of (responses server_id)) [])

  -- What is remembered of a server is what it answers.
  abbrev pub Agrees : ChannelCache → Type 0
  Agrees cache =
      (s : String) (cs : List Channel)
      → lookup str_discrete s cache.by_guild ≡ some cs
      → answer_of (responses s) ≡ some cs

  store-indexed :
      (x s : String) (cs old : List Channel) (index : List (String × Channel))
      → (old ≡ []) ⊎ (old ≡ cs)
      → indexed x (index_all cs (forget_all old index)) ≡ (has_id x cs || indexed x index)
  store-indexed x s cs old index (inl e) =
      subst (λ o. indexed x (index_all cs (forget_all o index)) ≡ (has_id x cs || indexed x index))
        (sym e) (indexed-index_all x cs index)
  store-indexed x s cs old index (inr e) =
      subst (λ o. indexed x (index_all cs (forget_all o index)) ≡ (has_id x cs || indexed x index))
        (sym e)
        (ground
          (arith, indexed-index_all x cs (forget_all cs index), indexed-forget_all x cs index))

  old_of :
      (s : String) (cs : List Channel) (cache : ChannelCache)
      → Agrees cache
      → answer_of (responses s) ≡ some cs
      → (or_else (lookup str_discrete s cache.by_guild) [] ≡ [])
        ⊎ (or_else (lookup str_discrete s cache.by_guild) [] ≡ cs)
  old_of s cs cache agrees h = elim (Option-cases (lookup str_discrete s cache.by_guild)) [
    | inl e ↦ inl (ap (λ o. or_else o []) e)
    | inr (old, e) ↦ inr (ap (λ o. or_else o []) (e ∙ sym (agrees s old e) ∙ h))
  ]

  fetch-indexed :
      (x s : String) (r : Outcome (List ChannelSummary)) (cache : ChannelCache)
      → Agrees cache
      → answer_of (responses s) ≡ answer_of r
      → indexed x (fetch_channels_for_server s r cache).1.index
        ≡ (has_id x (or_else (answer_of r) []) || indexed x cache.index)
  unfolding fetch_channels_for_server
  fetch-indexed x s (thrown e) cache agrees h = refl
  fetch-indexed x s (returned ss) cache agrees h =
      let cs = map_from map_channel 0 ss in
      store-indexed x s cs (or_else (lookup str_discrete s cache.by_guild) []) cache.index
        (old_of s cs cache agrees h)

  fetch-Agrees :
      (s : String) (r : Outcome (List ChannelSummary)) (cache : ChannelCache)
      → Agrees cache
      → answer_of (responses s) ≡ answer_of r
      → Agrees (fetch_channels_for_server s r cache).1
  unfolding fetch_channels_for_server
  fetch-Agrees s (thrown x) cache agrees h t cs e = agrees t cs e
  fetch-Agrees s (returned ss) cache agrees h t cs e = elim (str_discrete s t) [
    | yes p ↦
        let same_list = sym (insert_at s t (map_from map_channel 0 ss) cache.by_guild p) ∙ e in
        ap (λ u. answer_of (responses u)) (sym p) ∙ h ∙ same_list
    | no n ↦ agrees t cs (
        sym (lookup-insert_other str_discrete s t (map_from map_channel 0 ss) cache.by_guild n) ∙ e)
  ]
    where
      insert_at :
          (s t : String) (v : List Channel) (m : List (String × List Channel))
          → s ≡ t
          → lookup str_discrete t (insert str_discrete s v m) ≡ some v
      insert_at s t v m p =
          subst (λ u. lookup str_discrete u (insert str_discrete s v m) ≡ some v) p
            (lookup-insert_same str_discrete s v m)

  fetch_all-Agrees :
      (ss : List String) (cache : ChannelCache)
      → Agrees cache
      → Agrees (fetch_all responses ss cache)
  fetch_all-Agrees [] cache agrees = agrees
  fetch_all-Agrees (s ∷ ss) cache agrees =
      fetch_all-Agrees ss (fetch_channels_for_server s (responses s) cache).1
        (fetch-Agrees s (responses s) cache agrees refl)

  fetch_all-indexed :
      (x : String) (ss : List String) (cache : ChannelCache)
      → Agrees cache
      → indexed x (fetch_all responses ss cache).index ≡ (any (lists x) ss || indexed x cache.index)
  fetch_all-indexed x [] cache agrees = refl
  fetch_all-indexed x (s ∷ ss) cache agrees =
      let next = (fetch_channels_for_server s (responses s) cache).1 in
      let a = fetch_all-indexed x ss next (fetch-Agrees s (responses s) cache agrees refl) in
      let b = fetch-indexed x s (responses s) cache agrees refl in
      a
      ∙ ap (λ (o : Bool). any (lists x) ss || o) b
      ∙ or_swap (any (lists x) ss) (lists x s) (indexed x cache.index)
    where
      or_swap : (a b c : Bool) → (a || (b || c)) ≡ ((b || a) || c)
      or_swap a b c = ground arith

  -- A search that found something if and only if `v`, and else left the channel out of the index.
  abbrev pub Searched : String → BatchResult → Bool → Type 0
  Searched x r v =
      (is_some r.found ≡ v)
      × (is_some r.found ≡ false → Agrees r.cache × (indexed x r.cache.index ≡ false))

  or_search-Searched :
      (x : String) (o : Option Channel) (t : Tally) (cache : ChannelCache) (rest : BatchResult)
      (v w : Bool)
      → is_some o ≡ v
      → (is_some o ≡ false → Searched x rest w)
      → Searched x (or_search o t cache rest) (v || w)
  or_search-Searched x none t cache rest v w e f = rw⁻¹ e (f refl)
  or_search-Searched x (some c) t cache rest v w e f = rw⁻¹ e (refl, λ p. absurd (cc))

  module _ (arrive : List String → List String) (x : String) where
    pub search_batches-Searched :
        (bs : List (List String)) (t : Tally) (cache : ChannelCache)
        → Agrees cache
        → ((b : List String) → any (lists x) (arrive b) ≡ any (lists x) b)
        → indexed x cache.index ≡ false
        → Searched x (search_batches responses arrive x bs t cache) (any (any (lists x)) bs)
    search_batches-Searched [] t cache agrees all out = (refl, λ e. (agrees, out))
    search_batches-Searched (b ∷ bs) t cache agrees all out =
        let after = fetch_all responses (arrive b) cache in
        let tally = note_all responses b t in
        let h = fetch_all-indexed x (arrive b) cache agrees in
        let k = fetch_all-Agrees (arrive b) cache agrees in
        or_search-Searched x (found_in responses arrive x after) tally after
          (search_batches responses arrive x bs tally after) (any (lists x) b)
          (any (any (lists x)) bs)
          (h
            ∙ ap (λ (o : Bool). any (lists x) (arrive b) || o) out
            ∙ or_false (any (lists x) (arrive b))
            ∙ all b)
          (λ e. search_batches-Searched bs tally after k all e)
      where
        or_false : (a : Bool) → (a || false) ≡ a
        or_false a = ground arith
