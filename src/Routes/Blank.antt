-- ===== src/Routes/Blank.antt =====
-- `trim().length === 0`, as it is asked of the ids in a path: trimming twice changes nothing.
use Prim.Native.Char.{Char, code}
use link_lynx_ai.Common.{
  String, Bool, true, false, ◌&&◌, trim, trim_start, trim_end, is_empty, is_blank, is_space,
  if◌then◌else◌, ◌≡◌, refl, ap, sym, ◌∙◌,
}

blank_start :
    (b : Bool) (c : Char) (s t : String)
    → is_space (code c) ≡ b
    → is_blank t ≡ is_blank s
    → is_blank (if b then t else String.◌∷◌ c s) ≡ is_blank (String.◌∷◌ c s)
unfolding is_blank
blank_start true c s t e f = rw (e, f) refl
blank_start false c s t e f = refl

blank_end :
    (a b : Bool) (c : Char) (s t : String)
    → is_space (code c) ≡ b
    → a ≡ is_blank s
    → is_blank t ≡ is_blank s
    → is_blank (if a && b then "" else String.◌∷◌ c t) ≡ is_blank (String.◌∷◌ c s)
unfolding is_blank
blank_end true true c s t e f g = rw (e, sym f) refl
blank_end true false c s t e f g = ap (λ x. is_space (code c) && x) g
blank_end false b c s t e f g = ap (λ x. is_space (code c) && x) g

empty_end :
    (a b : Bool) (c : Char) (s t : String)
    → is_space (code c) ≡ b
    → a ≡ is_blank s
    → is_empty (if a && b then "" else String.◌∷◌ c t) ≡ is_blank (String.◌∷◌ c s)
unfolding is_blank is_empty
empty_end true true c s t e f = rw (e, sym f) refl
empty_end true false c s t e f = rw e refl
empty_end false true c s t e f = rw (e, sym f) refl
empty_end false false c s t e f = rw e refl

is_blank-trim_start : (s : String) → is_blank (trim_start s) ≡ is_blank s
unfolding trim_start
is_blank-trim_start String.[] = refl
is_blank-trim_start (String.◌∷◌ c s) =
    blank_start (is_space (code c)) c s (trim_start s) refl (is_blank-trim_start s)

empty_blank : is_empty "" ≡ is_blank ""
unfolding is_blank is_empty
empty_blank = refl

is_empty-trim_end : (s : String) → is_empty (trim_end s) ≡ is_blank s
unfolding trim_end
is_empty-trim_end String.[] = empty_blank
is_empty-trim_end (String.◌∷◌ c s) =
    empty_end (is_empty (trim_end s)) (is_space (code c)) c s (trim_end s) refl
      (is_empty-trim_end s)

is_blank-trim_end : (s : String) → is_blank (trim_end s) ≡ is_blank s
unfolding trim_end
is_blank-trim_end String.[] = refl
is_blank-trim_end (String.◌∷◌ c s) =
    blank_end (is_empty (trim_end s)) (is_space (code c)) c s (trim_end s) refl
      (is_empty-trim_end s) (is_blank-trim_end s)

is_empty-trim : (s : String) → is_empty (trim s) ≡ is_blank s
unfolding trim
is_empty-trim s = is_empty-trim_end (trim_start s) ∙ is_blank-trim_start s

is_blank-trim : (s : String) → is_blank (trim s) ≡ is_blank s
unfolding trim
is_blank-trim s = is_blank-trim_end (trim_start s) ∙ is_blank-trim_start s

pub is_empty-trim_idem : (s : String) → is_empty (trim (trim s)) ≡ is_empty (trim s)
is_empty-trim_idem s = is_empty-trim (trim s) ∙ is_blank-trim s ∙ sym (is_empty-trim s)
