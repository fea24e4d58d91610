-- ===== src/Guilds/SearchTests.antt =====
-- Runs of the search for a channel on concrete answers.
use link_lynx_ai.Common.{
  String, true, List, [], ◌∷◌, none, ◌≡◌, refl, lookup, str_discrete, if◌then◌else◌, decimal, trim,
  is_empty,
}
use link_lynx_ai.Timeline.{same}
use link_lynx_ai.Guilds.Data.{ChannelSummary}
use link_lynx_ai.Guilds.Cache.{empty_cache}
use link_lynx_ai.Guilds.Client.{Outcome, returned, thrown, guild_not_found}
use link_lynx_ai.Guilds.Search.{get_channel, channel_missing}
use link_lynx_ai.Guilds.SearchIds.{IsKeyed}
use link_lynx_ai.Guilds.SearchLaws.{Agrees}
use link_lynx_ai.Guilds.SearchEnds.{is_given, get_channel-finds}
use link_lynx_ai.Guilds.SearchErrors.{get_channel-missing}

abbrev general : ChannelSummary
general = record {
  channel_id = 10;
  guild_id = 1;
  name = "general";
  type_ = none;
  parent_id = none;
  position = none;
  created_at = "";
}

abbrev responses : String → Outcome (List ChannelSummary)
responses s = if same s "1" then returned (general ∷ []) else thrown guild_not_found

abbrev in_order : List String → List String
in_order b = b

empty-Agrees : Agrees responses empty_cache
unfolding lookup
empty-Agrees s cs e = absurd (cc)

empty-IsKeyed : IsKeyed empty_cache.index
unfolding lookup
empty-IsKeyed k c e = absurd (cc)

get_channel-finds_example :
    is_given
      (trim " 10")
      (get_channel responses in_order " 10"
        (returned ("2" ∷ "1" ∷ []))
        (thrown guild_not_found)
        (thrown guild_not_found)
        empty_cache).0
    ≡ true
unfolding trim is_empty str_discrete decimal
get_channel-finds_example =
    get_channel-finds responses in_order " 10" ("2" ∷ "1" ∷ []) (thrown guild_not_found)
      (thrown guild_not_found) empty_cache (λ b. refl) empty-Agrees empty-IsKeyed refl refl

get_channel-missing_example :
    (get_channel responses in_order "11"
      (returned ("2" ∷ "1" ∷ []))
      (returned [])
      (thrown guild_not_found)
      empty_cache).0
    ≡ thrown channel_missing
unfolding trim is_empty str_discrete decimal lookup
get_channel-missing_example =
    get_channel-missing responses in_order "11" ("2" ∷ "1" ∷ []) (returned []) guild_not_found
      empty_cache (λ b. refl) empty-Agrees refl refl refl refl refl refl
