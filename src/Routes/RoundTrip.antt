-- ===== src/Routes/RoundTrip.antt =====
-- shared/config/routes.ts: the paths that are built select what they were built from.
use Prim.Native.Char.{Char, code}
use Prim.Native.String
use text.Mathlib.TextLemmas.{cons-append, nil-append, append_assoc}
use link_lynx_ai.Common.{
  after_prefix, after_prefix-append, String, Bool, true, false, not, ◌&&◌, Option, none, some, trim,
  trim_end, is_empty, is_space, if◌then◌else◌, [], ◌∷◌, ◌==◌, ◌≡◌, refl, arith, ap, ◌∙◌, sym, subst,
  Bool-cases, inl, inr,
}
use link_lynx_ai.Timeline.{same}
use link_lynx_ai.Net.Url.{strip_slashes}
use link_lynx_ai.Routes.Classify.{
  normalize_pathname, same-eq, trim-slash, starts_with, starts_with_trans, starts_with-prefix,
}
use link_lynx_ai.Routes.Blank.{is_empty-trim_idem}
use link_lynx_ai.Routes.Selection.{
  split_path, is_me, select_below, select_route, parse_guild_channel_route, build_guild_route,
  build_channel_route,
}

-- Neither white space nor slashes, as in the result of `encodeURIComponent`.
unfoldable pub is_segment : String → Bool
is_segment String.[] = true
is_segment (String.◌∷◌ c s) = not (is_space (code c)) && not (code c == b'/') && is_segment s

and_parts : (a b r : Bool) → not a && not b && r ≡ true → (a ≡ false) × (b ≡ false) × (r ≡ true)
and_parts a b r e = ground arith

segment_parts :
    (c : Char) (s : String)
    → is_segment (String.◌∷◌ c s) ≡ true
    → (is_space (code c) ≡ false) × ((code c == b'/') ≡ false) × (is_segment s ≡ true)
unfolding is_segment
segment_parts c s h = and_parts (is_space (code c)) (code c == b'/') (is_segment s) h

is_empty-append : (s t : String) → is_empty t ≡ false → is_empty (String.◌++◌ s t) ≡ false
unfolding is_empty
is_empty-append String.[] t e = rw (nil-append t) e
is_empty-append (String.◌∷◌ c s) t e = rw (cons-append c s t) refl

trim_end-cons :
    (c : Char) (u v : String)
    → trim_end u ≡ v
    → is_empty v ≡ false
    → trim_end (String.◌∷◌ c u) ≡ String.◌∷◌ c v
unfolding trim_end
trim_end-cons c u v e n = rw (e, n) refl

-- The end of a text that is not blank.
trim_end-append :
    (s t : String)
    → is_empty (trim_end t) ≡ false
    → trim_end (String.◌++◌ s t) ≡ String.◌++◌ s (trim_end t)
trim_end-append String.[] t e = rw (nil-append t, nil-append (trim_end t)) refl
trim_end-append (String.◌∷◌ c s) t e =
    rw (cons-append c s t, cons-append c s (trim_end t))
      (trim_end-cons c (String.◌++◌ s t) (String.◌++◌ s (trim_end t)) (trim_end-append s t e)
        (is_empty-append s (trim_end t) e))

strip_slashes-cons :
    (c : Char) (u v : String)
    → strip_slashes u ≡ v
    → is_empty v ≡ false
    → strip_slashes (String.◌∷◌ c u) ≡ String.◌∷◌ c v
unfolding strip_slashes
strip_slashes-cons c u v e n = rw (e, n) refl

strip_slashes-append :
    (s t : String)
    → is_empty (strip_slashes t) ≡ false
    → strip_slashes (String.◌++◌ s t) ≡ String.◌++◌ s (strip_slashes t)
strip_slashes-append String.[] t e = rw (nil-append t, nil-append (strip_slashes t)) refl
strip_slashes-append (String.◌∷◌ c s) t e =
    rw (cons-append c s t, cons-append c s (strip_slashes t))
      (strip_slashes-cons c (String.◌++◌ s t) (String.◌++◌ s (strip_slashes t))
        (strip_slashes-append s t e) (is_empty-append s (strip_slashes t) e))

-- The rule of `trim_end` and of `strip_slashes` at a character that stays.
kept :
    (a b : Bool) (c : Char) {s t : String}
    → b ≡ false
    → s ≡ t
    → (if a && b then "" else String.◌∷◌ c s) ≡ String.◌∷◌ c t
kept true b c e f = rw (e, f) refl
kept false b c e f = rw f refl

trim_end-segment : (s : String) → is_segment s ≡ true → trim_end s ≡ s
unfolding trim_end
trim_end-segment String.[] h = refl
trim_end-segment (String.◌∷◌ c s) h =
    let (a, b, r) = segment_parts c s h in
    kept (is_empty (trim_end s)) (is_space (code c)) c a (trim_end-segment s r)

strip_slashes-segment : (s : String) → is_segment s ≡ true → strip_slashes s ≡ s
unfolding strip_slashes
strip_slashes-segment String.[] h = refl
strip_slashes-segment (String.◌∷◌ c s) h =
    let (a, b, r) = segment_parts c s h in
    kept (is_empty (strip_slashes s)) (code c == b'/') c b (strip_slashes-segment s r)

split_path-segment : (s : String) → is_segment s ≡ true → split_path s ≡ s ∷ []
unfolding split_path
split_path-segment String.[] h = refl
split_path-segment (String.◌∷◌ c s) h =
    let (a, b, r) = segment_parts c s h in rw (b, split_path-segment s r) refl

split_path-append :
    (s t : String)
    → is_segment s ≡ true
    → split_path (String.◌++◌ s (String.◌++◌ "/" t)) ≡ s ∷ split_path t
unfolding split_path
split_path-append String.[] t h =
    rw (nil-append (String.◌++◌ "/" t), cons-append "/" "" t, nil-append t) refl
split_path-append (String.◌∷◌ c s) t h =
    rw (cons-append c s (String.◌++◌ "/" t))
      (let (a, b, r) = segment_parts c s h in rw (b, split_path-append s t r) refl)

-- Percent coding gave a segment that is no end of trimming or of cutting slashes.
segment_end :
    (s y : String)
    → is_segment y ≡ true
    → is_empty y ≡ false
    → (trim_end (String.◌++◌ s y) ≡ String.◌++◌ s y)
      × (strip_slashes (String.◌++◌ s y) ≡ String.◌++◌ s y)
segment_end s y h n =
    let a = trim_end-segment y h in
    let b = strip_slashes-segment y h in
    (
      trim_end-append s y (subst (λ t. is_empty t ≡ false) (sym a) n) ∙ ap (λ t. String.◌++◌ s t) a,
      strip_slashes-append s y (subst (λ t. is_empty t ≡ false) (sym b) n)
          ∙ ap (λ t. String.◌++◌ s t) b,
    )

normalize_pathname-channels :
    (s : String)
    → starts_with "/channels/" s ≡ true
    → strip_slashes s ≡ s
    → normalize_pathname s ≡ s
unfolding normalize_pathname
normalize_pathname-channels s h e = elim (Bool-cases (same s "/")) [
  | inl home ↦
      absurd (no-home (subst (λ t. starts_with "/channels/" t ≡ true) (same-eq s "/" home) h))
  | inr other ↦ ap (λ (b : Bool). if b then "/" else strip_slashes s) other ∙ e
]
  where
    no-home : starts_with "/channels/" "/" ≡ true → ⊥
    no-home p = cc

-- A path below /channels that ends with a segment is read as it stands.
below_channels :
    (decode : String → Option String) (s y rest : String)
    → is_segment y ≡ true
    → is_empty y ≡ false
    → String.◌++◌ s y ≡ String.◌++◌ "/channels/" rest
    → parse_guild_channel_route decode (String.◌++◌ s y) ≡ select_route decode (split_path rest)
unfolding parse_guild_channel_route
below_channels decode s y rest h n e =
    let path = String.◌++◌ s y in
    let head =
      subst (λ t. starts_with "/channels/" t ≡ true) (sym e)
        (starts_with-prefix "/channels/" rest) in
    let trimmed =
      trim-slash path (starts_with_trans "/" "/channels/" path refl head)
      ∙ (segment_end s y h n).0 in
    let normal = normalize_pathname-channels path head (segment_end s y h n).1 in
    ap (λ t. select_below decode (after_prefix "/channels/" (normalize_pathname t))) trimmed
    ∙ ap (λ t. select_below decode (after_prefix "/channels/" t)) (normal ∙ e)
    ∙ ap (select_below decode) (after_prefix-append "/channels/" rest)

select_pair :
    (decode : String → Option String) (x y g c : String)
    → is_empty x ≡ false
    → is_empty y ≡ false
    → is_me x ≡ false
    → decode x ≡ some g
    → decode y ≡ some c
    → is_empty (trim g) ≡ false
    → is_empty (trim c) ≡ false
    → select_route decode (x ∷ y ∷ []) ≡ some (record { guild_id = g; channel_id = some c })
select_pair decode x y g c nx ny me dx dy ng nc = rw (nx, ny, dx, dy, me, ng, dy, nc) refl

-- The path that is built from a guild and a channel selects the two again, trimmed, where percent
-- coding gives for each a segment that is not empty and that decodes to it, and the guild's segment
-- is not "me".
pub parse_guild_channel_route-build :
    (encode : String → String) (decode : String → Option String) (g c : String)
    → is_segment (encode (trim g)) ≡ true
    → is_segment (encode (trim c)) ≡ true
    → is_empty (encode (trim g)) ≡ false
    → is_empty (encode (trim c)) ≡ false
    → is_me (encode (trim g)) ≡ false
    → decode (encode (trim g)) ≡ some (trim g)
    → decode (encode (trim c)) ≡ some (trim c)
    → is_empty (trim g) ≡ false
    → is_empty (trim c) ≡ false
    → parse_guild_channel_route decode (build_channel_route encode g c)
      ≡ some (record { guild_id = trim g; channel_id = some (trim c) })
unfolding build_channel_route
parse_guild_channel_route-build encode decode g c sx sy nx ny me dx dy ng nc =
    let x = encode (trim g) in
    let y = encode (trim c) in
    let s = String.◌++◌ (String.◌++◌ "/channels/" x) "/" in
    let whole =
      append_assoc (String.◌++◌ "/channels/" x) "/" y
      ∙ append_assoc "/channels/" x (String.◌++◌ "/" y) in
    below_channels decode s y (String.◌++◌ x (String.◌++◌ "/" y)) sy ny whole
    ∙ ap (select_route decode)
        (split_path-append x y sx ∙ ap (λ t. x ∷ t) (split_path-segment y sy))
    ∙ select_pair decode x y (trim g) (trim c) nx ny me dx dy (is_empty-trim_idem g ∙ ng)
        (is_empty-trim_idem c ∙ nc)

select_single :
    (decode : String → Option String) (x g : String)
    → is_empty x ≡ false
    → is_me x ≡ false
    → decode x ≡ some g
    → is_empty (trim g) ≡ false
    → select_route decode (x ∷ []) ≡ some (record { guild_id = g; channel_id = none })
select_single decode x g nx me dx ng = rw (nx, dx, me, ng) refl

-- The path that is built from a guild alone selects the guild and no channel, where percent coding
-- gives a segment that is not empty, is not "me" and decodes to it.
pub parse_guild_channel_route-build_guild :
    (encode : String → String) (decode : String → Option String) (g : String)
    → is_segment (encode (trim g)) ≡ true
    → is_empty (encode (trim g)) ≡ false
    → is_me (encode (trim g)) ≡ false
    → decode (encode (trim g)) ≡ some (trim g)
    → is_empty (trim g) ≡ false
    → parse_guild_channel_route decode (build_guild_route encode g)
      ≡ some (record { guild_id = trim g; channel_id = none })
unfolding build_guild_route
parse_guild_channel_route-build_guild encode decode g sx nx me dx ng =
    let x = encode (trim g) in
    below_channels decode "/channels/" x x sx nx refl
    ∙ ap (select_route decode) (split_path-segment x sx)
    ∙ select_single decode x (trim g) nx me dx (is_empty-trim_idem g ∙ ng)
