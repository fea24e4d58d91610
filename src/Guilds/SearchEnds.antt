-- ===== src/Guilds/SearchEnds.antt =====
-- shared/api/guild-channel-api-client.ts: how `getChannel` ends.
use link_lynx_ai.Common.{
  String, Bool, true, false, not, ◌||◌, List, Option, none, some, ◌≡◌, refl, ap, sym, ◌∙◌, arith,
  any, lookup, str_discrete, is_some, Option-cases, inl, inr, keep, trim, is_empty,
}
use link_lynx_ai.Timeline.{same}
use link_lynx_ai.Guilds.Data.{Channel, ChannelSummary, DmChannelSummary}
use link_lynx_ai.Guilds.Cache.{ChannelCache}
use link_lynx_ai.Guilds.Client.{Outcome, returned, thrown}
use link_lynx_ai.Guilds.Batches.{batches, batches_lem, any-concat, any-keep}
use link_lynx_ai.Guilds.Search.{
  BatchResult, search_batches, after_first, after_second, search_servers, no_tally, get_channel,
}
use link_lynx_ai.Guilds.SearchIds.{IsKeyed, Finds, search_batches-Finds}
use link_lynx_ai.Guilds.SearchLaws.{lists, Agrees, indexed, Searched, search_batches-Searched}

-- The channel that was asked for.
abbrev pub is_given : String → Outcome Channel → Bool
is_given x (returned c) = same c.id x
is_given x (thrown e) = false

pub any-batches : (p : String → Bool) (ss : List String) → any (any p) (batches ss) ≡ any p ss
any-batches p ss = sym (any-concat p (batches ss)) ∙ ap (any p) (batches_lem ss).0

same-of : (s t : String) → s ≡ t → same s t ≡ true
same-of s t e = ground arith

module _ (responses : String → Outcome (List ChannelSummary)) (arrive : List String → List String)
    (dms : Outcome (List DmChannelSummary)) (dm : Outcome DmChannelSummary) where
  -- The second loop, if the first one found nothing.
  second-given :
      (x : String) (r : BatchResult)
      → ((c : Channel) → r.found ≡ some c → c.id ≡ x)
      → (o : Option Channel) → r.found ≡ o
      → is_some r.found ≡ true
      → is_given x (after_second responses arrive x dms dm r o).0 ≡ true
  second-given x r f none e h = absurd (not-found (ap is_some (sym e) ∙ h))
    where
      not-found : false ≡ true → ⊥
      not-found p = cc
  second-given x r f (some c) e h = same-of c.id x (f c e)

  first-given :
      (x : String) (cached : List String) (r : BatchResult) (v : Bool)
      → ((b : List String) → any (lists responses x) (arrive b) ≡ any (lists responses x) b)
      → Searched responses x r v
      → Finds x r
      → (v || any (lists responses x) cached) ≡ true
      → (o : Option Channel) → r.found ≡ o
      → is_given x (after_first responses arrive x dms dm cached r o).0 ≡ true
  first-given x cached r v all s f h (some c) e = same-of c.id x (f.0 c e)
  first-given x cached r v all s f h none e =
      let second = search_batches responses arrive x (batches cached) r.tally r.cache in
      let missed = ap is_some e in
      let (agrees, out) = s.1 missed in
      let t =
        search_batches-Searched responses arrive x (batches cached) r.tally r.cache agrees all
          out in
      let g = search_batches-Finds responses arrive x (batches cached) r.tally r.cache f.1 in
      second-given x second g.0 second.found refl (
        t.0
        ∙ any-batches (lists responses x) cached
        ∙ right v (any (lists responses x) cached) (sym s.0 ∙ missed) h)
    where
      right : (a b : Bool) → a ≡ false → (a || b) ≡ true → b ≡ true
      right a b e h = ground arith

  search_servers-given :
      (x : String) (ids : List String) (cache : ChannelCache)
      → ((b : List String) → any (lists responses x) (arrive b) ≡ any (lists responses x) b)
      → Agrees responses cache
      → IsKeyed cache.index
      → indexed x cache.index ≡ false
      → any (lists responses x) ids ≡ true
      → is_given x (search_servers responses arrive x dms dm ids cache).0 ≡ true
  search_servers-given x ids cache all agrees keyed out h =
      let known = λ (s : String). is_some (lookup str_discrete s cache.by_guild) in
      let uncached = keep (λ s. not (known s)) ids in
      let cached = keep known ids in
      let first = search_batches responses arrive x (batches uncached) no_tally cache in
      first-given x cached first (any (any (lists responses x)) (batches uncached)) all
        (search_batches-Searched responses arrive x (batches uncached) no_tally cache agrees all
          out)
        (search_batches-Finds responses arrive x (batches uncached) no_tally cache keyed)
        (ap (λ (o : Bool). o || any (lists responses x) cached)
            (any-batches (lists responses x) uncached)
          ∙ any-keep (lists responses x) known ids
          ∙ h)
        first.found refl

-- If a server of the guild list lists the channel, it is given, in whatever order the answers of a
-- batch arrive and whatever the requests for direct messages answer, where each answer arrives,
-- what is remembered of a server is what it answers, and the index has channels under their ids.
pub get_channel-finds :
    (responses : String → Outcome (List ChannelSummary)) (arrive : List String → List String)
    (channel_id : String) (ids : List String) (dms : Outcome (List DmChannelSummary))
    (dm : Outcome DmChannelSummary) (cache : ChannelCache)
    → ((b : List String)
        → any (lists responses (trim channel_id)) (arrive b)
          ≡ any (lists responses (trim channel_id)) b)
    → Agrees responses cache
    → IsKeyed cache.index
    → is_empty (trim channel_id) ≡ false
    → any (lists responses (trim channel_id)) ids ≡ true
    → is_given
        (trim channel_id)
        (get_channel responses arrive channel_id (returned ids) dms dm cache).0
      ≡ true
unfolding get_channel
get_channel-finds responses arrive channel_id ids dms dm cache all agrees keyed n h =
    elim (Option-cases (lookup str_discrete (trim channel_id) cache.index)) [
      | inr (c, e) ↦ rw (n, e) (same-of c.id (trim channel_id) (keyed (trim channel_id) c e))
      | inl e ↦
          rw (n, e)
            (search_servers-given responses arrive dms dm (trim channel_id) ids cache all agrees
              keyed (ap is_some e) h)
    ]
