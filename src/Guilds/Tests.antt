-- ===== src/Guilds/Tests.antt =====
-- The channel cache of `GuildChannelAPIClient` at concrete channels.
use link_lynx_ai.Common.{
  ℕ, String, Bool, true, false, List, [], ◌∷◌, Option, none, some, ◌≡◌, ◌≢◌, refl, lookup,
  str_discrete, ℤ, decimal, if◌then◌else◌, ap, ◌&&◌, not,
}
use link_lynx_ai.Timeline.{same}
use link_lynx_ai.Guilds.Data.{
  Channel, ChannelSummary, DmChannelSummary, map_channel, map_dm_channel,
}
use link_lynx_ai.Guilds.Cache.{ChannelCache, has, collect_deleted_channel_ids}
use link_lynx_ai.Guilds.Client.{returned, finish_deletion}
use link_lynx_ai.Guilds.Direct.{create_dm}
use link_lynx_ai.Guilds.Deletion.{IsClosed, collect_deleted_channel_ids-IsClosed}
use link_lynx_ai.Guilds.Removal.{find_channel, recall, finish_deletion_lem}
use link_lynx_ai.Guilds.Lookup.{position_of, create_dm-position}

abbrev summary : ℕ → Option ℕ → ChannelSummary
summary channel_id parent_id = record {
  channel_id = channel_id;
  guild_id = 1;
  name = "general";
  type_ = none;
  parent_id = parent_id;
  position = none;
  created_at = "2026-01-01T00:00:00Z";
}

abbrev channel : ℕ → Option ℕ → Channel
channel id parent_id = map_channel (summary id parent_id) (ℤ.pos 0)

-- The child 12 of 11 stands before 11, the child of 10.
abbrev channels : List Channel
channels = channel 12 (some 11) ∷ channel 11 (some 10) ∷ channel 10 none ∷ channel 20 none ∷ []

abbrev cache : ChannelCache
cache = record {
  by_guild = ("1", channels) ∷ ("2", []) ∷ [];
  index =
      ("12", channel 12 (some 11))
      ∷ ("11", channel 11 (some 10))
      ∷ ("10", channel 10 none)
      ∷ ("20", channel 20 none)
      ∷ [];
  dms = none;
}

abbrev dm_summary : ℕ → DmChannelSummary
dm_summary channel_id = record {
  channel_id = channel_id;
  created_at = "2026-01-01T00:00:00Z";
  last_message_id = none;
  recipient = record { user_id = 5; display_name = "Eve"; avatar_key = none };
}

abbrev with_dms : ChannelCache
with_dms = record cache { dms = some (map_dm_channel (dm_summary 30) (ℤ.pos 0) ∷ []) }

collect_test : collect_deleted_channel_ids "10" (some "1") cache ≡ "12" ∷ "11" ∷ "10" ∷ []
unfolding collect_deleted_channel_ids decimal str_discrete
collect_test = refl

-- A set that holds "10" and is closed under children.
abbrev in_tree : String → Bool
in_tree x = has x ("12" ∷ "11" ∷ "10" ∷ [])

collect_deleted_channel_ids-IsClosed_example :
    let ids = collect_deleted_channel_ids "10" (some "1") cache in
    (has "10" ids ≡ true) × IsClosed channels ids × ((has "20" ids && not (in_tree "20")) ≡ false)
unfolding lookup str_discrete decimal
collect_deleted_channel_ids-IsClosed_example =
    collect_deleted_channel_ids-IsClosed "10" "1" "20" channels cache in_tree refl refl
      (refl, (refl, (refl, (refl, tt))))

one-two : ◌≢◌ {A = String} "1" "2"
unfolding str_discrete
one-two p = let e : true ≡ false = ap (λ s. same "1" s) p in cc

abbrev gone : List String
gone = "12" ∷ "11" ∷ "10" ∷ []

finish_deletion_example :
    let after = (finish_deletion (gone, some "1") (returned tt) cache).1 in
    (lookup str_discrete "11" after.index
      ≡ (if has "11" gone then none else lookup str_discrete "11" cache.index))
    × (recall "11" (lookup str_discrete "1" after.by_guild)
        ≡ (if has "11" gone then none else find_channel "11" channels))
    × (lookup str_discrete "2" after.by_guild ≡ lookup str_discrete "2" cache.by_guild)
unfolding lookup str_discrete
finish_deletion_example = finish_deletion_lem gone "1" "2" "11" channels cache refl one-two

create_dm-position_example :
    position_of (create_dm (returned (dm_summary 31)) with_dms).0 ≡ some (ℤ.negsuc 0)
unfolding decimal str_discrete
create_dm-position_example =
    create_dm-position (dm_summary 31) (map_dm_channel (dm_summary 30) (ℤ.pos 0) ∷ []) with_dms refl
      refl
