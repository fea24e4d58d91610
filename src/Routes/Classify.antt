-- ===== src/Routes/Classify.antt =====
-- shared/config/routes.ts: the class of a path.
use Prim.Native.Char.{Char, code}
use Prim.Native.String
use text.Mathlib.TextLemmas.{cons-append}
use link_lynx_ai.Common.{
  String, Bool, true, false, ◌||◌, ◌&&◌, trim, trim_end, trim_start, is_empty, if◌then◌else◌, ◌==◌,
  ◌≡◌, refl, arith, is_space, Bool-cases, inl, inr, subst, sym, str_discrete,
}
use link_lynx_ai.Timeline.{same}
use link_lynx_ai.Net.Url.{strip_slashes}

pub data RouteAccessKind : Type 0 where
  public : RouteAccessKind
  auth : RouteAccessKind
  protected : RouteAccessKind
  unknown : RouteAccessKind

-- `s.startsWith(p)`
abbrev pub starts_with : String → String → Bool
starts_with String.[] s = true
starts_with (String.◌∷◌ c p) String.[] = false
starts_with (String.◌∷◌ c p) (String.◌∷◌ d s) = code c == code d && starts_with p s

unfoldable pub normalize_pathname : String → String
unfolding strip_slashes
normalize_pathname pathname = if same pathname "/" then "/" else strip_slashes pathname

abbrev is_auth_route : String → Bool
is_auth_route s =
    same s "/login" || same s "/register" || same s "/verify-email" || same s "/password-reset"

abbrev pub is_protected_route : String → Bool
is_protected_route s =
    same s "/channels"
    || starts_with "/channels/" s
    || same s "/settings"
    || starts_with "/settings/" s

-- `classifyAppRoute` behind the normalization of the path.
abbrev pub classify_normalized : String → RouteAccessKind
classify_normalized s =
    if same s "/" || same s "/invite"
    then public
    else if starts_with "/invite/" s
    then public
    else if is_auth_route s
    then auth
    else if is_protected_route s
    then protected
    else unknown

unfoldable pub classify_app_route : String → RouteAccessKind
unfolding normalize_pathname trim
classify_app_route pathname = classify_normalized (normalize_pathname (trim pathname))

is_empty-strip_trim :
    (s : String) → is_empty (strip_slashes s) ≡ true → is_empty (strip_slashes (trim_end s)) ≡ true
unfolding strip_slashes trim_end is_empty
is_empty-strip_trim String.[] e = refl
is_empty-strip_trim (String.◌∷◌ c s) e = ground (arith, is_empty-strip_trim s)

-- One character is put back before a text that is cut or not.
starts_with-put_back :
    (x y : Bool) (a : Char) (p : String) (c : Char) (t s : String)
    → (starts_with p t ≡ true → starts_with p s ≡ true)
    → (y ≡ true → x ≡ true)
    → starts_with (String.◌∷◌ a p) (if x then "" else String.◌∷◌ c t) ≡ true
    → starts_with (String.◌∷◌ a p) (if y then "" else String.◌∷◌ c s) ≡ true
starts_with-put_back true y a p c t s f g e = absurd (cc)
starts_with-put_back false true a p c t s f g e = let h = g refl in absurd (cc)
starts_with-put_back false false a p c t s f g e = ground (arith, f)

starts_with-keep_cut :
    (b : Bool) (a : Char) (p : String) (c : Char) (t s : String)
    → (starts_with p (strip_slashes t) ≡ true → starts_with p (strip_slashes s) ≡ true)
    → (is_empty (strip_slashes s) ≡ true → is_empty (strip_slashes t) ≡ true)
    → starts_with (String.◌∷◌ a p) (strip_slashes (if b then "" else String.◌∷◌ c t)) ≡ true
    → starts_with (String.◌∷◌ a p) (strip_slashes (String.◌∷◌ c s)) ≡ true
unfolding strip_slashes
starts_with-keep_cut true a p c t s f g e = absurd (cc)
starts_with-keep_cut false a p c t s f g e =
    let slash = code c == b'/' in
    starts_with-put_back (is_empty (strip_slashes t) && slash) (is_empty (strip_slashes s) && slash)
      a p c (strip_slashes t) (strip_slashes s) f (λ h. and_mono slash g h) e
  where
    and_mono : {a b : Bool} (c : Bool) → (a ≡ true → b ≡ true) → a && c ≡ true → b && c ≡ true
    and_mono c f e = ground (arith, f)

-- Trimming takes nothing away but at the end.
starts_with-strip_trim :
    (p s : String)
    → starts_with p (strip_slashes (trim_end s)) ≡ true
    → starts_with p (strip_slashes s) ≡ true
unfolding trim_end
starts_with-strip_trim String.[] s e = refl
starts_with-strip_trim (String.◌∷◌ a p) String.[] e = e
starts_with-strip_trim (String.◌∷◌ a p) (String.◌∷◌ c s) e =
    starts_with-keep_cut (is_empty (trim_end s) && is_space (code c)) a p c (trim_end s) s
      (starts_with-strip_trim p s) (is_empty-strip_trim s) e

pub trim-slash : (s : String) → starts_with "/" s ≡ true → trim s ≡ trim_end s
unfolding trim trim_start is_space
trim-slash String.[] e = cc
trim-slash (String.◌∷◌ c s) e = ground arith

classify_normalized-protected :
    (s : String) → classify_normalized s ≡ protected → is_protected_route s ≡ true
classify_normalized-protected s e = ground arith

-- The paths below the two protected roots.
abbrev pub is_below_protected : String → Bool
is_below_protected s = starts_with "/channels" s || starts_with "/settings" s

pub starts_with_trans :
    (p r s : String) → starts_with p r ≡ true → starts_with r s ≡ true → starts_with p s ≡ true
starts_with_trans String.[] r s e f = refl
starts_with_trans (String.◌∷◌ a p) String.[] s e f = absurd (cc)
starts_with_trans (String.◌∷◌ a p) (String.◌∷◌ b r) String.[] e f = f
starts_with_trans (String.◌∷◌ a p) (String.◌∷◌ b r) (String.◌∷◌ c s) e f =
    ground (arith, starts_with_trans p r s)

pub starts_with-append :
    (p s t : String) → starts_with p s ≡ true → starts_with p (String.◌++◌ s t) ≡ true
starts_with-append String.[] s t e = refl
starts_with-append (String.◌∷◌ a p) String.[] t e = absurd (cc)
starts_with-append (String.◌∷◌ a p) (String.◌∷◌ c s) t e =
    rw (cons-append c s t) (ground (arith, starts_with-append p s t))

pub starts_with-prefix : (p t : String) → starts_with p (String.◌++◌ p t) ≡ true
starts_with-prefix String.[] t = refl
starts_with-prefix (String.◌∷◌ a p) t =
    rw (cons-append a p t) (ground (arith, starts_with-prefix p t))

pub same-eq : (s t : String) → same s t ≡ true → s ≡ t
same-eq s t e = ground arith

is_below-same :
    (t s : String) → is_below_protected t ≡ true → same s t ≡ true → is_below_protected s ≡ true
is_below-same t s h e = subst (λ u. is_below_protected u ≡ true) (sym (same-eq s t e)) h

pub is_protected_route-is_below_protected :
    (s : String) → is_protected_route s ≡ true → is_below_protected s ≡ true
is_protected_route-is_below_protected s e =
    let a = is_below-same "/channels" s refl in
    let b = is_below-same "/settings" s refl in
    let c = starts_with_trans "/channels" "/channels/" s refl in
    let d = starts_with_trans "/settings" "/settings/" s refl in ground (arith, a, b, c, d)

is_below-strip_trim :
    (s : String)
    → is_below_protected (strip_slashes (trim_end s)) ≡ true
    → is_below_protected (strip_slashes s) ≡ true
is_below-strip_trim s e =
    ground (arith, starts_with-strip_trim "/channels" s, starts_with-strip_trim "/settings" s)

classify_normalized-stripped :
    (s : String)
    → classify_normalized (normalize_pathname s) ≡ protected
    → is_protected_route (strip_slashes s) ≡ true
unfolding normalize_pathname str_discrete
classify_normalized-stripped s e = elim (Bool-cases (same s "/")) [
  | inl home ↦ absurd (
      public-protected (
        subst (λ (o : Bool). classify_normalized (if o then "/" else strip_slashes s) ≡ protected)
          home e))
  | inr other ↦ classify_normalized-protected (strip_slashes s) (
      subst (λ (o : Bool). classify_normalized (if o then "/" else strip_slashes s) ≡ protected)
        other e)
]
  where
    public-protected : classify_normalized "/" ≡ protected → ⊥
    public-protected p = cc

normalize_pathname-stripped :
    (s : String)
    → is_below_protected (strip_slashes s) ≡ true
    → is_below_protected (normalize_pathname s) ≡ true
unfolding normalize_pathname strip_slashes is_empty
normalize_pathname-stripped s e = elim (Bool-cases (same s "/")) [
  | inl home ↦
      absurd
        (root-not (subst (λ t. is_below_protected (strip_slashes t) ≡ true) (same-eq s "/" home) e))
  | inr other ↦
      subst (λ (o : Bool). is_below_protected (if o then "/" else strip_slashes s) ≡ true)
        (sym other) e
]
  where
    root-not : is_below_protected (strip_slashes "/") ≡ true → ⊥
    root-not p = cc

-- What is protected stays below its root when it is not trimmed.
pub classify_app_route-is_below_protected :
    (s : String)
    → starts_with "/" s ≡ true
    → classify_app_route s ≡ protected
    → is_below_protected (normalize_pathname s) ≡ true
unfolding classify_app_route
classify_app_route-is_below_protected s h e =
    let f =
      subst (λ t. classify_normalized (normalize_pathname t) ≡ protected) (trim-slash s h) e in
    let g = classify_normalized-stripped (trim_end s) f in
    let k = is_protected_route-is_below_protected (strip_slashes (trim_end s)) g in
    normalize_pathname-stripped s (is_below-strip_trim s k)
