-- ===== src/Timeline/Merge.antt =====
-- shared/api/message-query.ts, `mergeMessages`: which snapshot of a message wins.
use link_lynx_ai.Common.{◌≡◌, ◌≢◌, refl, max, none, some, Option, big_int, arith}
use link_lynx_ai.Timeline.{spread, merge_messages}
use link_lynx_ai.Timeline.Data.{Message}

pub merge_messages-id : (c m : Message) → c.id ≡ m.id → (merge_messages c m).id ≡ m.id
unfolding merge_messages
merge_messages-id c m e = ground arith

-- The version of the merged message is the larger of the two.
pub merge_messages-version :
    (c m : Message)
    → big_int (merge_messages c m).version ≡ max (big_int c.version) (big_int m.version)
unfolding merge_messages
merge_messages-version c m = ground arith

spread_twice {ℓ} : {A : Type ℓ} (a b : Option A) → spread (spread a b) b ≡ spread a b
spread_twice a none = refl
spread_twice a (some b) = refl

-- Receiving a snapshot a second time changes nothing.
pub merge_messages_idem :
    (c m : Message) → merge_messages (merge_messages c m) m ≡ merge_messages c m
unfolding merge_messages
merge_messages_idem c m =
    ground (arith, spread_twice c.flags m.flags, spread_twice c.components m.components)

-- Two snapshots of different versions by one author, without flags and components, may arrive in either order.
pub merge_messages_comm :
    (c m n : Message)
    → big_int m.version ≢ big_int n.version
    → m.author ≡ n.author
    → m.flags ≡ none
    → n.flags ≡ none
    → m.components ≡ none
    → n.components ≡ none
    → merge_messages (merge_messages c m) n ≡ merge_messages (merge_messages c n) m
unfolding merge_messages
merge_messages_comm c m n v a f g k l = ground arith

spread_self {ℓ} : {A : Type ℓ} (a : Option A) → spread a a ≡ a
spread_self none = refl
spread_self (some a) = refl

pub merge_messages_self : (m : Message) → merge_messages m m ≡ m
unfolding merge_messages
merge_messages_self m = ground (arith, spread_self m.flags, spread_self m.components)
