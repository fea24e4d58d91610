-- ===== src/Guilds/Deletion.antt =====
-- shared/api/guild-channel-api-client.ts: the ids that `collectDeletedChannelIds` collects.
use link_lynx_ai.Common.{
  ℕ, zero, suc, ◌≤◌, ◌<◌, ◌+◌, String, Bool, true, false, not, ◌&&◌, List, [], ◌∷◌, Option, none,
  some, ◌≡◌, refl, arith, if◌then◌else◌, length, All, lookup, str_discrete, Bool-cases, inl, inr,
}
use link_lynx_ai.Timeline.{same}
use link_lynx_ai.Guilds.Data.{Channel}
use link_lynx_ai.Guilds.Cache.{
  ChannelCache, has, has_parent, is_new_child, visit, find_children, collect_children,
  collect_deleted_channel_ids,
}

-- How many of the channels are not among the ids.
abbrev missing : List Channel → List String → ℕ
missing [] ids = 0
missing (c ∷ cs) ids = (if has c.id ids then 0 else 1) + missing cs ids

-- With a channel's parent among the ids, the channel is too.
abbrev pub IsClosed : List Channel → List String → Type 0
IsClosed cs ids = All (λ c. is_new_child c ids ≡ false) cs

missing-le : (cs : List Channel) (ids : List String) → missing cs ids ≤ length cs
missing-le [] ids = omega arith
missing-le (c ∷ cs) ids = ground (arith, missing-le cs ids)

has-visit :
    (x : String) (c : Channel) (s : List String × Bool)
    → has x s.0 ≡ true
    → has x (visit c s).0 ≡ true
has-visit x c s h = ground arith

has-find :
    (x : String) (cs : List Channel) (s : List String × Bool)
    → has x s.0 ≡ true
    → has x (find_children cs s).0 ≡ true
has-find x [] s h = h
has-find x (c ∷ cs) s h = has-find x cs (visit c s) (has-visit x c s h)

missing-visit :
    (ds : List Channel) (c : Channel) (s : List String × Bool)
    → missing ds (visit c s).0 ≤ missing ds s.0
missing-visit [] c s = omega arith
missing-visit (d ∷ ds) c s = ground (arith, missing-visit ds c s, has-visit d.id c s)

missing-find :
    (ds cs : List Channel) (s : List String × Bool)
    → missing ds (find_children cs s).0 ≤ missing ds s.0
missing-find ds [] s = omega arith
missing-find ds (c ∷ cs) s = omega (arith, missing-find ds cs (visit c s), missing-visit ds c s)

same_refl : (x : String) → same x x ≡ true
same_refl x = ground arith

find_found : (cs : List Channel) (ids : List String) → (find_children cs (ids, true)).1 ≡ true
find_found [] ids = refl
find_found (c ∷ cs) ids = ground (arith, find_found cs ids, find_found cs (c.id ∷ ids))

visit_new :
    (c : Channel) (ids : List String) (b : Bool)
    → is_new_child c ids ≡ true
    → visit c (ids, b) ≡ (c.id ∷ ids, true)
visit_new c ids b h = rw h refl

visit_old :
    (c : Channel) (ids : List String) (b : Bool)
    → is_new_child c ids ≡ false
    → visit c (ids, b) ≡ (ids, b)
visit_old c ids b h = rw h refl

-- A round that finds a child leaves fewer channels out.
find_progress :
    (cs : List Channel) (ids : List String)
    → (find_children cs (ids, false)).1 ≡ true
    → missing cs (find_children cs (ids, false)).0 < missing cs ids
find_progress [] ids h = absurd (ground arith)
find_progress (c ∷ cs) ids h = elim (Bool-cases (is_new_child c ids)) [
  | inl new ↦
      let m = missing-find cs cs (c.id ∷ ids, true) in
      let n = missing-visit cs c (ids, false) in
      let k = has-find c.id cs (c.id ∷ ids, true) (ground arith) in
      let v = visit_new c ids false new in ground arith
  | inr old ↦
      let v = visit_old c ids false old in
      let k = has-find c.id cs (ids, false) in let r = find_progress cs ids in ground arith
]

-- A round that finds none changes nothing, and the ids are closed.
find_fixed :
    (cs : List Channel) (ids : List String)
    → (find_children cs (ids, false)).1 ≡ false
    → (find_children cs (ids, false) ≡ (ids, false)) × IsClosed cs ids
find_fixed [] ids h = (refl, tt)
find_fixed (c ∷ cs) ids h = elim (Bool-cases (is_new_child c ids)) [
  | inl new ↦
      let v = visit_new c ids false new in absurd (ground (arith, find_found cs (c.id ∷ ids)))
  | inr old ↦ let v = visit_old c ids false old in let r = find_fixed cs ids in ground arith
]

collect-IsClosed :
    (n : ℕ) (cs : List Channel) (ids : List String)
    → missing cs ids < n
    → IsClosed cs (collect_children n cs ids)
unfolding collect_children
collect-IsClosed zero cs ids h = absurd (omega arith)
collect-IsClosed (suc n) cs ids h = elim (Bool-cases (find_children cs (ids, false)).1) [
  | inl on ↦
      let p = find_progress cs ids on in
      rw on (collect-IsClosed n cs (find_children cs (ids, false)).0 (omega arith))
  | inr off ↦ let (same, closed) = find_fixed cs ids off in rw (off, same) closed
]

has-collect :
    (n : ℕ) (x : String) (cs : List Channel) (ids : List String)
    → has x ids ≡ true
    → has x (collect_children n cs ids) ≡ true
unfolding collect_children
has-collect zero x cs ids h = h
has-collect (suc n) x cs ids h =
    let f = has-find x cs (ids, false) h in
    ground (arith, has-collect n x cs (find_children cs (ids, false)).0)

abbrev is_in : (String → Bool) → Option String → Bool
is_in p none = false
is_in p (some x) = p x

-- With a channel's parent in the set, the channel is too.
abbrev pub IsStable : (String → Bool) → List Channel → Type 0
IsStable p cs = All (λ c. (is_in p c.parent_id && not (p c.id)) ≡ false) cs

abbrev Holds : (String → Bool) → List String → Type 0
Holds p ids = All (λ x. p x ≡ true) ids

has-Holds :
    (p : String → Bool) (x : String) (ids : List String)
    → Holds p ids
    → has x ids ≡ true
    → p x ≡ true
has-Holds p x [] h e = absurd (ground arith)
has-Holds p x (y ∷ ids) h e = ground (arith, has-Holds p x ids h.1)

parent-Holds :
    (p : String → Bool) (o : Option String) (ids : List String)
    → Holds p ids
    → has_parent o ids ≡ true
    → is_in p o ≡ true
parent-Holds p none ids h e = e
parent-Holds p (some x) ids h e = has-Holds p x ids h e

visit-Holds :
    (p : String → Bool) (c : Channel) (s : List String × Bool)
    → (is_in p c.parent_id && not (p c.id)) ≡ false
    → Holds p s.0
    → Holds p (visit c s).0
visit-Holds p c s k h = elim (Bool-cases (is_new_child c s.0)) [
  | inl new ↦
      let q = parent-Holds p c.parent_id s.0 h (ground arith) in
      let v = visit_new c s.0 s.1 new in rw v (ground arith, h)
  | inr old ↦ rw (visit_old c s.0 s.1 old) h
]

find-Holds :
    (p : String → Bool) (cs : List Channel) (s : List String × Bool)
    → IsStable p cs
    → Holds p s.0
    → Holds p (find_children cs s).0
find-Holds p [] s k h = h
find-Holds p (c ∷ cs) s k h = find-Holds p cs (visit c s) k.1 (visit-Holds p c s k.0 h)

collect-Holds :
    (n : ℕ) (p : String → Bool) (cs : List Channel) (ids : List String)
    → IsStable p cs
    → Holds p ids
    → Holds p (collect_children n cs ids)
unfolding collect_children
collect-Holds zero p cs ids k h = h
collect-Holds (suc n) p cs ids k h =
    let f = find-Holds p cs (ids, false) k h in
    let r = collect-Holds n p cs (find_children cs (ids, false)).0 k f in
    elim (Bool-cases (find_children cs (ids, false)).1) [ inl on ↦ rw on r | inr off ↦ rw off f ]

-- The deletion of a channel whose guild is cached takes with it the channel, every cached channel
-- whose parent goes, however deep and in whatever order the channels are listed, and no other: the
-- ids are within every set that holds the channel and is closed under children. The loop's rounds
-- always suffice, even where the parents form a cycle.
pub collect_deleted_channel_ids-IsClosed :
    (channel_id guild_id x : String) (cs : List Channel) (cache : ChannelCache) (p : String → Bool)
    → lookup str_discrete guild_id cache.by_guild ≡ some cs
    → p channel_id ≡ true
    → IsStable p cs
    → let ids = collect_deleted_channel_ids channel_id (some guild_id) cache in
      (has channel_id ids ≡ true) × IsClosed cs ids × ((has x ids && not (p x)) ≡ false)
unfolding collect_deleted_channel_ids
collect_deleted_channel_ids-IsClosed channel_id guild_id x cs cache p e h k =
    let n = suc (length cs) in
    let ids = channel_id ∷ [] in
    let le = missing-le cs ids in
    let least = has-Holds p x (collect_children n cs ids) (collect-Holds n p cs ids k (h, tt)) in
    rw e (
      has-collect n channel_id cs ids (ground arith),
      collect-IsClosed n cs ids (omega arith),
      ground arith,
    )
