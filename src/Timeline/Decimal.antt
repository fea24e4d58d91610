-- ===== src/Timeline/Decimal.antt =====
-- shared/lib/exact-json.ts: the numbers that `BigInt` reads from strict decimal strings.
use Prim.Native.Char.{Char, code}
use text.Mathlib.TextEquality.{Char-path}
use link_lynx_ai.Common.{
  ℕ, suc, ◌+◌, ◌-◌, ◌*◌, ◌≤◌, ◌<◌, String, ◌≡◌, refl, ap, sym, ◌∙◌, true, arith, big_int,
  big_int_from, ◌⊎◌, inl, inr, is_empty,
}
use link_lynx_ai.Timeline.Contract.{all_digits, is_strict_decimal_string}

abbrev count : String → ℕ
count String.[] = 0
count (String.◌∷◌ c s) = suc (count s)

-- 10 to the length of the text.
abbrev scale : String → ℕ
scale String.[] = 1
scale (String.◌∷◌ c s) = 10 * scale s

value_lower : (a : ℕ) (s : String) → a * scale s ≤ big_int_from a s
unfolding big_int_from
value_lower a String.[] = omega arith
value_lower a (String.◌∷◌ c s) = omega (arith, value_lower (a * 10 + (code c - b'0')) s)

digit_bounds :
    (c : Char) (s : String)
    → all_digits (String.◌∷◌ c s) ≡ true
    → (b'0' ≤ code c) × (code c ≤ b'9') × (all_digits s ≡ true)
digit_bounds c s h = ground arith

scale_step : (a d m : ℕ) → d ≤ 9 → (a * 10 + d + 1) * m ≤ (a + 1) * (10 * m)
scale_step a d m h = grind arith

value_upper : (a : ℕ) (s : String) → all_digits s ≡ true → big_int_from a s < (a + 1) * scale s
unfolding big_int_from
value_upper a String.[] h = omega arith
value_upper a (String.◌∷◌ c s) h =
    let (lo, hi, rest) = digit_bounds c s h in
    omega (
      arith,
      value_upper (a * 10 + (code c - b'0')) s rest,
      scale_step a (code c - b'0') (scale s) (omega arith),
    )

scale_pos : (s : String) → 1 ≤ scale s
scale_pos String.[] = omega arith
scale_pos (String.◌∷◌ c s) = omega (arith, scale_pos s)

scale_lt : (s t : String) → count s < count t → 10 * scale s ≤ scale t
scale_lt s String.[] h = absurd (omega arith)
scale_lt String.[] (String.◌∷◌ d t) h = omega (arith, scale_pos t)
scale_lt (String.◌∷◌ c s) (String.◌∷◌ d t) h = omega (arith, scale_lt s t (omega arith))

digit_split : (a b d e : ℕ) → d ≤ 9 → e ≤ 9 → a * 10 + d ≡ b * 10 + e → (a ≡ b) × (d ≡ e)
digit_split a b d e h k q = omega arith

-- With as many digits left, equal values come from equal texts.
value_inj :
    (a b : ℕ) (s t : String)
    → all_digits s ≡ true
    → all_digits t ≡ true
    → count s ≡ count t
    → big_int_from a s ≡ big_int_from b t
    → (a ≡ b) × (s ≡ t)
unfolding big_int_from
value_inj a b String.[] String.[] h k l e = (e, refl)
value_inj a b String.[] (String.◌∷◌ d t) h k l e = absurd (omega arith)
value_inj a b (String.◌∷◌ c s) String.[] h k l e = absurd (omega arith)
value_inj a b (String.◌∷◌ c s) (String.◌∷◌ d t) h k l e =
    let (clo, chi, cs) = digit_bounds c s h in
    let (dlo, dhi, ds) = digit_bounds d t k in
    let (same_value, same_rest) =
      value_inj (a * 10 + (code c - b'0')) (b * 10 + (code d - b'0')) s t cs ds (omega arith) e in
    let (same_head, same_digit) =
      digit_split a b (code c - b'0') (code d - b'0') (omega arith) (omega arith) same_value in
    (same_head, cc (Char-path c d (omega arith), same_rest))

-- A leading digit that is not zero, with fewer digits behind it than the other text has.
value_shorter :
    (c d : Char) (s t : String)
    → code c ≤ b'9'
    → b'1' ≤ code d
    → all_digits s ≡ true
    → count s < count t
    → big_int_from (code c - b'0') s < big_int_from (code d - b'0') t
value_shorter c d s t hi lo h l = omega (
  arith,
  value_upper (code c - b'0') s h,
  value_lower (code d - b'0') t,
  scale_lt s t l,
  at_most_ten (code c - b'0' + 1) (scale s) (omega arith),
  at_least_one (code d - b'0') (scale t) (omega arith),
)
  where
    at_most_ten : (x m : ℕ) → x ≤ 10 → x * m ≤ 10 * m
    at_most_ten x m p = grind arith

    at_least_one : (x m : ℕ) → 1 ≤ x → m ≤ x * m
    at_least_one x m p = grind arith

big_int-cons : (c : Char) (s : String) → big_int (String.◌∷◌ c s) ≡ big_int_from (code c - b'0') s
unfolding big_int
big_int-cons c s = ap (λ a. big_int_from a s) (omega arith)

IsLeading : Char → String → Type 0
IsLeading c s =
    ((code c ≡ b'0') × (s ≡ String.[]))
    ⊎ ((b'1' ≤ code c) × (code c ≤ b'9') × (all_digits s ≡ true))

IsLeading-cases :
    (c : Char) (s : String) → is_strict_decimal_string (String.◌∷◌ c s) ≡ true → IsLeading c s
unfolding IsLeading is_strict_decimal_string is_empty
IsLeading-cases c String.[] h = ground arith
IsLeading-cases c (String.◌∷◌ d s) h = ground arith

zero_smaller :
    (c d : Char) (t : String)
    → code c ≡ b'0'
    → b'1' ≤ code d
    → big_int_from (code c - b'0') String.[] < big_int_from (code d - b'0') t
unfolding big_int_from
zero_smaller c d t z lo = omega (
  arith,
  value_lower (code d - b'0') t,
  scale_pos t,
  at_least_one (code d - b'0') (scale t) (omega arith),
)
  where
    at_least_one : (x m : ℕ) → 1 ≤ x → m ≤ x * m
    at_least_one x m p = grind arith

same_number :
    (c d : Char) (s t : String)
    → IsLeading c s
    → IsLeading d t
    → big_int_from (code c - b'0') s ≡ big_int_from (code d - b'0') t
    → String.◌∷◌ c s ≡ String.◌∷◌ d t
unfolding IsLeading
same_number c d s t (inl (p, q)) (inl (p', q')) e = cc (Char-path c d (omega arith))
same_number c d s t (inl (p, q)) (inr (lo, hi, h)) e =
    absurd (omega (arith, zero_smaller c d t p lo, rw q at e))
same_number c d s t (inr (lo, hi, h)) (inl (p, q)) e =
    absurd (omega (arith, zero_smaller d c s p lo, rw q at e))
same_number c d s t (inr (lo, hi, h)) (inr (lo', hi', h')) e = elim (ℕ-order (count s) (count t)) [
  | inl less ↦ absurd (omega (arith, value_shorter c d s t hi lo' h less))
  | inr (inl more) ↦ absurd (omega (arith, value_shorter d c t s hi' lo h' more))
  | inr (inr l) ↦
      let (q, r) = value_inj (code c - b'0') (code d - b'0') s t h h' l e in
      cc (Char-path c d (omega arith))
]
  where
    ℕ-order : (m n : ℕ) → (m < n) ⊎ ((n < m) ⊎ (m ≡ n))
    ℕ-order m n = grind arith

-- Strict decimal strings with one value are one string.
pub big_int-injective :
    (s t : String)
    → is_strict_decimal_string s ≡ true
    → is_strict_decimal_string t ≡ true
    → big_int s ≡ big_int t
    → s ≡ t
unfolding is_strict_decimal_string
big_int-injective String.[] t h k e = cc
big_int-injective (String.◌∷◌ c s) String.[] h k e = cc
big_int-injective (String.◌∷◌ c s) (String.◌∷◌ d t) h k e =
    same_number c d s t (IsLeading-cases c s h) (IsLeading-cases d t k)
      (sym (big_int-cons c s) ∙ e ∙ big_int-cons d t)
