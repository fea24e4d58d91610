-- ===== src/Guilds/SearchIds.antt =====
-- shared/api/guild-channel-api-client.ts: `channelIndex` has every channel under its own id, while
-- `getChannel` asks the servers.
use link_lynx_ai.Common.{
  String, List, [], ◌∷◌, Option, none, some, ◌≡◌, sym, ◌∙◌, ap, subst, or_else, lookup, insert,
  remove, lookup-insert_same, lookup-insert_other, lookup-remove, str_discrete, ite,
}
use link_lynx_ai.Guilds.Data.{Channel, ChannelSummary, map_channel}
use link_lynx_ai.Guilds.Cache.{ChannelCache}
use link_lynx_ai.Guilds.Client.{
  Outcome, returned, thrown, map_from, index_all, forget_all, fetch_channels_for_server,
}
use link_lynx_ai.Guilds.Search.{
  Tally, fetch_all, note_all, found_in, or_search, search_batches, BatchResult,
}

-- Every channel is under its own id.
abbrev pub IsKeyed : List (String × Channel) → Type 0
IsKeyed index = (k : String) (c : Channel) → lookup str_discrete k index ≡ some c → c.id ≡ k

abbrev id_or : String → Option Channel → String
id_or x none = x
id_or x (some c) = c.id

-- Nothing is left where something was removed.
ite-none :
    {P : Type 0} (dec : Dec P) (a b : Option Channel) (c : Channel)
    → a ≡ ite dec none b
    → a ≡ some c
    → b ≡ some c
ite-none (yes p) a b c e f = absurd (none-some (sym e ∙ f))
  where
    none-some : Path (Option Channel) none (some c) → ⊥
    none-some h = cc
ite-none (no n) a b c e f = sym e ∙ f

insert-IsKeyed :
    (c : Channel) (index : List (String × Channel))
    → IsKeyed index
    → IsKeyed (insert str_discrete c.id c index)
insert-IsKeyed c index keyed k d e = elim (str_discrete c.id k) [
  | yes p ↦
      let here =
        subst (λ u. lookup str_discrete u (insert str_discrete c.id c index) ≡ some c) p
          (lookup-insert_same str_discrete c.id c index) in
      ap (id_or k) (sym e ∙ here) ∙ p
  | no n ↦ keyed k d (sym (lookup-insert_other str_discrete c.id k c index n) ∙ e)
]

remove-IsKeyed :
    (x : String) (index : List (String × Channel))
    → IsKeyed index
    → IsKeyed (remove str_discrete x index)
remove-IsKeyed x index keyed k d e = keyed k d (
    ite-none (str_discrete x k) (lookup str_discrete k (remove str_discrete x index))
      (lookup str_discrete k index) d (lookup-remove str_discrete x k index) e)

index_all-IsKeyed :
    (cs : List Channel) (index : List (String × Channel))
    → IsKeyed index
    → IsKeyed (index_all cs index)
index_all-IsKeyed [] index keyed = keyed
index_all-IsKeyed (c ∷ cs) index keyed =
    index_all-IsKeyed cs (insert str_discrete c.id c index) (insert-IsKeyed c index keyed)

forget_all-IsKeyed :
    (cs : List Channel) (index : List (String × Channel))
    → IsKeyed index
    → IsKeyed (forget_all cs index)
forget_all-IsKeyed [] index keyed = keyed
forget_all-IsKeyed (c ∷ cs) index keyed =
    forget_all-IsKeyed cs (remove str_discrete c.id index) (remove-IsKeyed c.id index keyed)

fetch-IsKeyed :
    (s : String) (r : Outcome (List ChannelSummary)) (cache : ChannelCache)
    → IsKeyed cache.index
    → IsKeyed (fetch_channels_for_server s r cache).1.index
unfolding fetch_channels_for_server
fetch-IsKeyed s (thrown e) cache keyed = keyed
fetch-IsKeyed s (returned ss) cache keyed =
    let old = or_else (lookup str_discrete s cache.by_guild) [] in
    index_all-IsKeyed (map_from map_channel 0 ss) (forget_all old cache.index)
      (forget_all-IsKeyed old cache.index keyed)

fetch_all-IsKeyed :
    (responses : String → Outcome (List ChannelSummary)) (ss : List String) (cache : ChannelCache)
    → IsKeyed cache.index
    → IsKeyed (fetch_all responses ss cache).index
fetch_all-IsKeyed responses [] cache keyed = keyed
fetch_all-IsKeyed responses (s ∷ ss) cache keyed =
    fetch_all-IsKeyed responses ss (fetch_channels_for_server s (responses s) cache).1
      (fetch-IsKeyed s (responses s) cache keyed)

-- What a search finds has the id that was searched, and the index stays keyed.
abbrev pub Finds : String → BatchResult → Type 0
Finds x r = ((c : Channel) → r.found ≡ some c → c.id ≡ x) × IsKeyed r.cache.index

or_search-Finds :
    (x : String) (o : Option Channel) (t : Tally) (cache : ChannelCache) (rest : BatchResult)
    → ((c : Channel) → o ≡ some c → c.id ≡ x)
    → IsKeyed cache.index
    → Finds x rest
    → Finds x (or_search o t cache rest)
or_search-Finds x none t cache rest f keyed h = h
or_search-Finds x (some c) t cache rest f keyed h = (f, keyed)

pub search_batches-Finds :
    (responses : String → Outcome (List ChannelSummary)) (arrive : List String → List String)
    (x : String) (bs : List (List String)) (t : Tally) (cache : ChannelCache)
    → IsKeyed cache.index
    → Finds x (search_batches responses arrive x bs t cache)
search_batches-Finds responses arrive x [] t cache keyed = ((λ c e. absurd (cc)), keyed)
search_batches-Finds responses arrive x (b ∷ bs) t cache keyed =
    let after = fetch_all responses (arrive b) cache in
    let tally = note_all responses b t in
    let k = fetch_all-IsKeyed responses (arrive b) cache keyed in
    or_search-Finds x (found_in responses arrive x after) tally after
      (search_batches responses arrive x bs tally after) (k x) k
      (search_batches-Finds responses arrive x bs tally after k)
