-- ===== src/Guilds/Removal.antt =====
-- shared/api/guild-channel-api-client.ts: what is remembered after a channel or a guild is deleted.
use link_lynx_ai.Common.{
  String, false, not, List, [], ◌∷◌, none, some, ◌≡◌, ◌≢◌, refl, ap, ◌∙◌, Option, ite, arith,
  if◌then◌else◌, All, keep, lookup, remove, str_discrete, lookup-remove, lookup-insert_same,
  lookup-insert_other, trim, is_empty, Bool-cases, inl, inr,
}
use link_lynx_ai.Guilds.Data.{Channel}
use link_lynx_ai.Guilds.Cache.{
  ChannelCache, has, remove_all, without, is_of_guild, remove_channels_from_guild_cache,
  remove_guild_from_cache,
}
use link_lynx_ai.Guilds.Client.{returned, finish_deletion, delete_server}

lookup-remove_all :
    (x : String) (ids : List String) (index : List (String × Channel))
    → lookup str_discrete x (remove_all ids index)
      ≡ (if has x ids then none else lookup str_discrete x index)
lookup-remove_all x [] index = refl
lookup-remove_all x (y ∷ ids) index = ground (
  arith,
  lookup-remove_all x ids (remove str_discrete y index),
  lookup-remove str_discrete y x index,
)

-- The first channel of an id.
abbrev pub find_channel : String → List Channel → Option Channel
find_channel x [] = none
find_channel x (c ∷ cs) = ite (str_discrete c.id x) (some c) (find_channel x cs)

find-without :
    (x : String) (ids : List String) (cs : List Channel)
    → find_channel x (without ids cs) ≡ (if has x ids then none else find_channel x cs)
unfolding keep
find-without x ids [] = ground arith
find-without x ids (c ∷ cs) = elim (str_discrete c.id x) [
  | yes e ↦ ground (arith, find-without x ids cs)
  | no n ↦ ground (arith, find-without x ids cs)
]

-- What is remembered of the guild, by id.
abbrev pub recall : String → Option (List Channel) → Option Channel
recall x none = none
recall x (some cs) = find_channel x cs

-- Once the request to delete a channel of a cached guild has succeeded, the planned ids are
-- gone from the index and from the guild's channels, every other id is found there as before, and
-- the other guilds keep theirs.
pub finish_deletion_lem :
    (ids : List String) (g h x : String) (cs : List Channel) (cache : ChannelCache)
    → lookup str_discrete g cache.by_guild ≡ some cs
    → g ≢ h
    → let after = (finish_deletion (ids, some g) (returned tt) cache).1 in
      (lookup str_discrete x after.index
        ≡ (if has x ids then none else lookup str_discrete x cache.index))
      × (recall x (lookup str_discrete g after.by_guild)
          ≡ (if has x ids then none else find_channel x cs))
      × (lookup str_discrete h after.by_guild ≡ lookup str_discrete h cache.by_guild)
unfolding finish_deletion remove_channels_from_guild_cache
finish_deletion_lem ids g h x cs cache e d = rw e (
  lookup-remove_all x ids cache.index,
  ap (recall x) (lookup-insert_same str_discrete g (without ids cs) cache.by_guild)
      ∙ find-without x ids cs,
  lookup-insert_other str_discrete g h (without ids cs) cache.by_guild d,
)

-- The channel of an entry is not of the guild.
abbrev pub IsForeign : String → String × Channel → Type 0
IsForeign g e = is_of_guild g e.1.guild_id ≡ false

abbrev of_others : String → List (String × Channel) → List (String × Channel)
of_others g index = keep (λ e. not (is_of_guild g e.1.guild_id)) index

All-of_others :
    (g : String) (index : List (String × Channel)) → All (IsForeign g) (of_others g index)
unfolding keep
All-of_others g [] = tt
All-of_others g (e ∷ index) = elim (Bool-cases (is_of_guild g e.1.guild_id)) [
  | inl own ↦ rw own (All-of_others g index)
  | inr other ↦ rw other (ground arith, All-of_others g index)
]

lookup-of_others :
    (g x : String) (c : Channel) (index : List (String × Channel))
    → is_of_guild g c.guild_id ≡ false
    → lookup str_discrete x index ≡ some c
    → lookup str_discrete x (of_others g index) ≡ some c
unfolding keep lookup
lookup-of_others g x c [] h e = cc
lookup-of_others g x c ((y, d) ∷ index) h e = ground (arith, lookup-of_others g x c index h)

-- Once a server has been deleted, its channels are not remembered, none of the indexed channels is
-- of it, every indexed channel of another guild is still found, and the other guilds keep theirs.
pub delete_server_lem :
    (server_id h x : String) (c : Channel) (cache : ChannelCache)
    → is_empty (trim server_id) ≡ false
    → trim server_id ≢ h
    → lookup str_discrete x cache.index ≡ some c
    → is_of_guild (trim server_id) c.guild_id ≡ false
    → let after = (delete_server server_id (returned tt) cache).1 in
      (lookup str_discrete (trim server_id) after.by_guild ≡ none)
      × (lookup str_discrete h after.by_guild ≡ lookup str_discrete h cache.by_guild)
      × All (IsForeign (trim server_id)) after.index
      × (lookup str_discrete x after.index ≡ some c)
unfolding delete_server remove_guild_from_cache
delete_server_lem server_id h x c cache n d e o =
    let g = trim server_id in
    rw n (
      ground (arith, lookup-remove str_discrete g g cache.by_guild),
      ground (arith, lookup-remove str_discrete g h cache.by_guild),
      All-of_others g cache.index,
      lookup-of_others g x c cache.index o e,
    )
