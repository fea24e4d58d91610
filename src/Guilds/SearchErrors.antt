-- ===== src/Guilds/SearchErrors.antt =====
-- shared/api/guild-channel-api-client.ts: the errors of `getChannel`.
use link_lynx_ai.Common.{
  String, Bool, true, false, not, ◌||◌, List, [], ◌∷◌, Option, none, some, ◌≡◌, refl, ap, sym, ◌∙◌,
  arith, any, lookup, str_discrete, is_some, Option-cases, inl, inr, keep, trim, is_empty, find?,
}
use link_lynx_ai.Timeline.{same}
use link_lynx_ai.Guilds.Data.{Channel, ChannelSummary, DmChannelSummary, map_dm_channel}
use link_lynx_ai.Guilds.Cache.{ChannelCache}
use link_lynx_ai.Guilds.Client.{Outcome, returned, thrown, ApiError, map_from}
use link_lynx_ai.Guilds.Direct.{fetch_dm_channels, fetch_dm_channel}
use link_lynx_ai.Guilds.Batches.{batches, any-keep}
use link_lynx_ai.Guilds.Search.{
  Tally, BatchResult, note_all, note, or_search, found_in, fetch_all, search_batches, after_first,
  after_second, after_servers, ask_dm, ask_dms, failure, is_missing, channel_missing, no_tally,
  get_channel,
}
use link_lynx_ai.Guilds.SearchLaws.{has_id, lists, Agrees, indexed, search_batches-Searched}
use link_lynx_ai.Guilds.SearchEnds.{any-batches}

abbrev pub has_answered : Outcome (List ChannelSummary) → Bool
has_answered (returned summaries) = true
has_answered (thrown e) = false

-- A list of direct message channels that has the channel.
abbrev pub has_dm : String → Outcome (List DmChannelSummary) → Bool
has_dm x (returned summaries) = has_id x (map_from map_dm_channel 0 summaries)
has_dm x (thrown e) = false

find-none :
    (x : String) (cs : List Channel) → has_id x cs ≡ false → find? (λ c. same c.id x) cs ≡ none
find-none x [] e = refl
find-none x (c ∷ cs) e = ground (arith, find-none x cs)

failure-answered : (o : Option ApiError) → failure true o ≡ channel_missing
failure-answered none = refl
failure-answered (some e) = refl

module _ (responses : String → Outcome (List ChannelSummary)) where
  abbrev pub answered : String → Bool
  answered s = has_answered (responses s)

  note-fetched :
      (r : Outcome (List ChannelSummary)) (t : Tally)
      → (note r t).fetched_any ≡ (has_answered r || t.fetched_any)
  note-fetched (returned ss) t = refl
  note-fetched (thrown e) t = refl

  note_all-fetched :
      (ss : List String) (t : Tally)
      → (note_all responses ss t).fetched_any ≡ (any answered ss || t.fetched_any)
  note_all-fetched [] t = refl
  note_all-fetched (s ∷ ss) t =
      ground (arith, note_all-fetched ss (note (responses s) t), note-fetched (responses s) t)

  module _ (arrive : List String → List String) (x : String) where
    or_search-tally :
        (o : Option Channel) (t : Tally) (cache : ChannelCache) (rest : BatchResult) (v : Bool)
        → (is_some rest.found ≡ false → rest.tally.fetched_any ≡ v)
        → is_some (or_search o t cache rest).found ≡ false
        → (or_search o t cache rest).tally.fetched_any ≡ v
    or_search-tally none t cache rest v f e = f e
    or_search-tally (some c) t cache rest v f e = absurd (cc)

    search_batches-tally :
        (bs : List (List String)) (t : Tally) (cache : ChannelCache)
        → is_some (search_batches responses arrive x bs t cache).found ≡ false
        → (search_batches responses arrive x bs t cache).tally.fetched_any
          ≡ (any (any answered) bs || t.fetched_any)
    search_batches-tally [] t cache e = refl
    search_batches-tally (b ∷ bs) t cache e =
        let after = fetch_all responses (arrive b) cache in
        let tally = note_all responses b t in
        or_search-tally (found_in responses arrive x after) tally after
          (search_batches responses arrive x bs tally after)
          (any (any answered) (b ∷ bs) || t.fetched_any)
          (λ f.
            search_batches-tally bs tally after f
            ∙ ap (λ (o : Bool). any (any answered) bs || o) (note_all-fetched b t)
            ∙ swap (any (any answered) bs) (any answered b) t.fetched_any)
          e
      where
        swap : (a b c : Bool) → (a || (b || c)) ≡ ((b || a) || c)
        swap a b c = ground arith

    module _ (e : ApiError) where
      ask_dm-missing :
          (dms : Outcome (List DmChannelSummary)) (t : Tally) (cache : ChannelCache)
          → is_missing e ≡ true
          → t.fetched_any ≡ true
          → (ask_dm responses arrive x dms (thrown e) t cache).0 ≡ thrown channel_missing
      unfolding fetch_dm_channel
      ask_dm-missing dms t cache m f = rw (m, f) (ap thrown (failure-answered t.first_error))

      ask_dms-missing :
          (dms : Outcome (List DmChannelSummary)) (t : Tally) (cache : ChannelCache)
          (o : Option (List Channel))
          → is_missing e ≡ true
          → t.fetched_any ≡ true
          → has_dm x dms ≡ false
          → (ask_dms responses arrive x dms (thrown e) t cache o).0 ≡ thrown channel_missing
      unfolding fetch_dm_channels
      ask_dms-missing dms t cache (some cs) m f n = ask_dm-missing dms t cache m f
      ask_dms-missing (thrown d) t cache none m f n = ask_dm-missing (thrown d) t cache m f
      ask_dms-missing (returned ss) t cache none m f n =
          let cs = map_from map_dm_channel 0 ss in
          rw (find-none x cs n)
            (ask_dm-missing (returned ss) t (fetch_dm_channels (returned ss) cache).1 m f)

      second-missing :
          (dms : Outcome (List DmChannelSummary)) (r : BatchResult)
          → is_missing e ≡ true
          → r.tally.fetched_any ≡ true
          → has_dm x dms ≡ false
          → indexed x r.cache.index ≡ false
          → (o : Option Channel) → is_some o ≡ false
          → (after_second responses arrive x dms (thrown e) r o).0 ≡ thrown channel_missing
      second-missing dms r m f n out (some c) h = absurd (cc)
      second-missing dms r m f n out none h =
          elim (Option-cases (found_in responses arrive x r.cache)) [
            | inl g ↦
                ap (λ o. (after_servers responses arrive x dms (thrown e) r.tally r.cache o).0) g
                ∙ ask_dms-missing dms r.tally r.cache r.cache.dms m f n
            | inr (c, g) ↦ absurd (true-false (sym (ap is_some g) ∙ out))
          ]
        where
          true-false : true ≡ false → ⊥
          true-false p = cc

      first-missing :
          (dms : Outcome (List DmChannelSummary)) (cached : List String) (r : BatchResult)
          → ((b : List String) → any (lists responses x) (arrive b) ≡ any (lists responses x) b)
          → is_missing e ≡ true
          → has_dm x dms ≡ false
          → any (lists responses x) cached ≡ false
          → (any answered cached || r.tally.fetched_any) ≡ true
          → Agrees responses r.cache
          → indexed x r.cache.index ≡ false
          → (o : Option Channel) → is_some o ≡ false
          → (after_first responses arrive x dms (thrown e) cached r o).0 ≡ thrown channel_missing
      first-missing dms cached r all m n nowhere f agrees out (some c) h = absurd (cc)
      first-missing dms cached r all m n nowhere f agrees out none h =
          let second = search_batches responses arrive x (batches cached) r.tally r.cache in
          let s =
            search_batches-Searched responses arrive x (batches cached) r.tally r.cache agrees all
              out in
          let missed = s.0 ∙ any-batches (lists responses x) cached ∙ nowhere in
          let tallied =
            search_batches-tally (batches cached) r.tally r.cache missed
            ∙ ap (λ (o : Bool). o || r.tally.fetched_any) (any-batches answered cached)
            ∙ f in
          second-missing dms second m tallied n (s.1 missed).1 second.found missed

  none_of_both : (a b : Bool) → (a || b) ≡ false → (a ≡ false) × (b ≡ false)
  none_of_both a b e = ground arith

  one_of_both : (a b : Bool) → (a || b) ≡ true → (b || (a || false)) ≡ true
  one_of_both a b e = ground arith

-- If no server lists the channel, some server answered, and neither the list of direct messages nor
-- the request for the channel knows it, the error is 404 CHANNEL_NOT_FOUND, whatever the servers that
-- did not answer threw, where each answer of a batch arrives, what is remembered of a server is what
-- it answers, and the index does not have the channel.
pub get_channel-missing :
    (responses : String → Outcome (List ChannelSummary)) (arrive : List String → List String)
    (channel_id : String) (ids : List String) (dms : Outcome (List DmChannelSummary)) (e : ApiError)
    (cache : ChannelCache)
    → ((b : List String)
        → any (lists responses (trim channel_id)) (arrive b)
          ≡ any (lists responses (trim channel_id)) b)
    → Agrees responses cache
    → indexed (trim channel_id) cache.index ≡ false
    → is_empty (trim channel_id) ≡ false
    → any (lists responses (trim channel_id)) ids ≡ false
    → any (answered responses) ids ≡ true
    → has_dm (trim channel_id) dms ≡ false
    → is_missing e ≡ true
    → (get_channel responses arrive channel_id (returned ids) dms (thrown e) cache).0
      ≡ thrown channel_missing
unfolding get_channel
get_channel-missing responses arrive channel_id ids dms e cache all agrees out n nowhere some_ no_dm
      m =
    let x = trim channel_id in
    let known = λ (s : String). is_some (lookup str_discrete s cache.by_guild) in
    let uncached = keep (λ s. not (known s)) ids in
    let cached = keep known ids in
    let first = search_batches responses arrive x (batches uncached) no_tally cache in
    let (no_new, no_old) =
      none_of_both responses (any (lists responses x) uncached) (any (lists responses x) cached)
        (any-keep (lists responses x) known ids ∙ nowhere) in
    let s =
      search_batches-Searched responses arrive x (batches uncached) no_tally cache agrees all out in
    let missed = s.0 ∙ any-batches (lists responses x) uncached ∙ no_new in
    let tallied =
      search_batches-tally responses arrive x (batches uncached) no_tally cache missed
      ∙ ap (λ (o : Bool). o || false) (any-batches (answered responses) uncached) in
    let found =
      ap (λ (o : Bool). any (answered responses) cached || o) tallied
      ∙ one_of_both responses (any (answered responses) uncached) (any (answered responses) cached)
          (any-keep (answered responses) known ids ∙ some_) in
    elim (Option-cases (lookup str_discrete x cache.index)) [
      | inr (c, h) ↦ absurd (true-false (sym (ap is_some h) ∙ out))
      | inl h ↦
          rw (n, h)
            (first-missing responses arrive x e dms cached first all m no_dm no_old found
              (s.1 missed).0 (s.1 missed).1 first.found missed)
    ]
  where
    true-false : true ≡ false → ⊥
    true-false p = cc
