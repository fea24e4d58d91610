-- ===== src/Stores/Tests.antt =====
-- The stores after concrete actions.
use link_lynx_ai.Common.{String, true, false, [], ◌∷◌, ◌≡◌, ◌≢◌, str_discrete, ap}
use link_lynx_ai.Timeline.{same}
use link_lynx_ai.Stores.Voice
use link_lynx_ai.Stores.Voice.{
  Action, connects, mutes, disconnects, run, IsConsistent, run-IsConsistent,
}
use link_lynx_ai.Stores.Settings.{}

run-IsConsistent_example :
    IsConsistent (run (connects "1" "3" ∷ mutes ∷ disconnects ∷ []) Voice.initial)
run-IsConsistent_example = run-IsConsistent (connects "1" "3" ∷ mutes ∷ disconnects ∷ [])

one-two : ◌≢◌ {A = String} "1" "2"
unfolding str_discrete
one-two p = let e : true ≡ false = ap (λ s. same "1" s) p in cc
