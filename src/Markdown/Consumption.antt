-- ===== src/Markdown/Consumption.antt =====
-- shared/lib/parse-markdown.ts: every match consumes text.
use Prim.Native.Char.{Char, code}
use link_lynx_ai.Common.{
  ℕ, suc, ◌+◌, ◌≤◌, ◌<◌, String, Bool, true, false, ◌&&◌, Option, none, some, if◌then◌else◌, ◌==◌,
  is_empty, after_prefix, ◌≡◌, refl, arith, Option-cases, inl, inr, List, [], ◌∷◌, All, subst, sym,
}
use link_lynx_ai.Markdown.Patterns.{
  Match, leaf, wrap, Span, bold_span, underline_span, strikethrough_span, spoiler_span, italic_span,
  link_span, match_inline, until_char, until_pair, span_class, onto, tail_of, first_is,
  is_line_terminator, not_empty, unless_first, and_then, lazy_pair, wrapped, code_leaf, match_pair,
  match_italic, match_inline_code, digits_closed, is_digit, without_mark, match_user, match_channel,
  match_word, link_to, link_behind, match_link, is_url_char, url_leaf, match_bare_url, or_match,
  first_match, inline_patterns, is_web_url,
}
use link_lynx_ai.Markdown.Nodes.{
  MarkdownNode, cons, nil, link, text, user_mention, channel_mention, everyone_mention,
  here_mention,
}
use link_lynx_ai.Markdown.Inline.{size}

-- The two texts of a split have no more characters than the whole.
abbrev Within : ℕ → Option (String × String) → Type 0
Within n none = Unit
Within n (some (s, rest)) = (size s ≤ n) × (size rest ≤ n)

-- What a match leaves is shorter than what it was made on.
abbrev pub Shortens : ℕ → Option Match → Type 0
Shortens n none = Unit
Shortens n (some (leaf node rest)) = size rest < n
Shortens n (some (wrap span inside rest)) = (size inside < n) × (size rest < n)

if-Within :
    (n : ℕ) (b : Bool) (x y : Option (String × String))
    → Within n x
    → Within n y
    → Within n (if b then x else y)
if-Within _ true x y h k = h
if-Within _ false x y h k = k

if-Shortens :
    (n : ℕ) (b : Bool) (x y : Option Match)
    → Shortens n x
    → Shortens n y
    → Shortens n (if b then x else y)
if-Shortens n true x y h k = h
if-Shortens n false x y h k = k

onto-Within :
    (n : ℕ) (d : Char) (o : Option (String × String)) → Within n o → Within (suc n) (onto d o)
onto-Within _ d none h = tt
onto-Within _ d (some (s, rest)) h = (omega (arith, h.0), omega (arith, h.1))

until_char-Within : (c : ℕ) (s : String) → Within (size s) (until_char c s)
unfolding until_char
until_char-Within c String.[] = tt
until_char-Within c (String.◌∷◌ d s) =
    if-Within _ (code d == c) (some ("", s)) (onto d (until_char c s)) (omega arith, omega arith)
      (onto-Within _ d (until_char c s) (until_char-Within c s))

tail-Within : (s : String) → Within (suc (size s)) (tail_of s)
tail-Within String.[] = tt
tail-Within (String.◌∷◌ e s) = (omega arith, omega arith)

until_pair-Within : (c : ℕ) (s : String) → Within (size s) (until_pair c s)
unfolding until_pair
until_pair-Within c String.[] = tt
until_pair-Within c (String.◌∷◌ d s) =
    let further = onto d (until_pair c s) in
    if-Within _ (code d == c && first_is c s) (tail_of s)
      (if is_line_terminator (code d) then none else further) (tail-Within s)
      (if-Within _ (is_line_terminator (code d)) none further tt
        (onto-Within _ d (until_pair c s) (until_pair-Within c s)))

lazy_pair-Within : (c : ℕ) (s : String) → Within (size s) (lazy_pair c s)
lazy_pair-Within c String.[] = tt
lazy_pair-Within c (String.◌∷◌ d s) =
    let further = onto d (until_pair c s) in
    if-Within _ (is_line_terminator (code d)) none further tt
      (onto-Within _ d (until_pair c s) (until_pair-Within c s))

not_empty-Within : (n : ℕ) (o : Option (String × String)) → Within n o → Within n (not_empty o)
not_empty-Within _ none h = tt
not_empty-Within _ (some (s, rest)) h = if-Within _ (is_empty s) none (some (s, rest)) tt h

unless_first-Within :
    (n : ℕ) (c : ℕ) (o : Option (String × String)) → Within n o → Within n (unless_first c o)
unless_first-Within _ c none h = tt
unless_first-Within _ c (some (s, rest)) h =
    if-Within _ (first_is c rest) none (some (s, rest)) tt h

span_class-Within : (p : ℕ → Bool) (s : String) → Within (size s) (some (span_class p s))
unfolding span_class
span_class-Within p String.[] = (omega arith, omega arith)
span_class-Within p (String.◌∷◌ c s) =
    span_step (p (code c)) (span_class p s) (span_class-Within p s)
  where
    span_step :
        (b : Bool) (rest : String × String)
        → Within (size s) (some rest)
        → Within
            (suc (size s))
            (some (if b then (String.◌∷◌ c rest.0, rest.1) else ("", String.◌∷◌ c s)))
    span_step true rest h = (omega (arith, h.0), omega (arith, h.1))
    span_step false rest h = (omega arith, omega arith)

size-after_prefix : (p s t : String) → after_prefix p s ≡ some t → size s ≡ size p + size t
unfolding after_prefix
size-after_prefix String.[] s t e = ground arith
size-after_prefix (String.◌∷◌ c p) String.[] t e = absurd (cc)
size-after_prefix (String.◌∷◌ c p) (String.◌∷◌ d s) t e = ground (arith, size-after_prefix p s t)

and_then-Shortens :
    (n : ℕ) (p s : String) (k : String → Option Match)
    → ((t : String) → size s ≡ size p + size t → Shortens n (k t))
    → Shortens n (and_then (after_prefix p s) k)
and_then-Shortens n p s k f = elim (Option-cases (after_prefix p s)) [
  | inl e ↦ subst (λ o. Shortens n (and_then o k)) (sym e) tt
  | inr (t, e) ↦ subst (λ o. Shortens n (and_then o k)) (sym e) (f t (size-after_prefix p s t e))
]

wrapped-Shortens :
    (m n : ℕ) (span : Span) (o : Option (String × String))
    → m < n
    → Within m o
    → Shortens n (wrapped span o)
wrapped-Shortens m n span none h w = tt
wrapped-Shortens m n span (some (s, rest)) h w = (omega (arith, h, w.0), omega (arith, h, w.1))

code_leaf-Shortens :
    (m n : ℕ) (o : Option (String × String)) → m < n → Within m o → Shortens n (code_leaf o)
code_leaf-Shortens m n none h w = tt
code_leaf-Shortens m n (some (s, rest)) h w = omega (arith, h, w.1)

match_pair-Shortens :
    (a : Char) (p : String) (c : ℕ) (span : Span) (s : String)
    → Shortens (size s) (match_pair (String.◌∷◌ a p) c span s)
match_pair-Shortens a p c span s =
    and_then-Shortens (size s) (String.◌∷◌ a p) s (λ t. wrapped span (lazy_pair c t))
      (λ t e.
        wrapped-Shortens (size t) (size s) span (lazy_pair c t) (omega (arith, e))
          (lazy_pair-Within c t))

match_italic-Shortens :
    (a : Char) (c : ℕ) (s : String) → Shortens (size s) (match_italic (String.◌∷◌ a "") c s)
match_italic-Shortens a c s =
    and_then-Shortens (size s) (String.◌∷◌ a "") s
      (λ t. wrapped italic_span (unless_first c (not_empty (until_char c t))))
      (λ t e.
        wrapped-Shortens (size t) (size s) italic_span (unless_first c (not_empty (until_char c t)))
          (omega (arith, e))
          (unless_first-Within _ c (not_empty (until_char c t))
            (not_empty-Within _ (until_char c t) (until_char-Within c t))))

and_then-Within :
    (n : ℕ) (p s digits : String)
    → size digits ≤ n
    → size s ≤ n
    → Within n (and_then (after_prefix p s) (λ t. some (digits, t)))
and_then-Within n p s digits h k = elim (Option-cases (after_prefix p s)) [
  | inl e ↦ subst (λ o. Within n (and_then o (λ t. some (digits, t)))) (sym e) tt
  | inr (t, e) ↦
      subst (λ o. Within n (and_then o (λ t. some (digits, t)))) (sym e)
        (h, omega (arith, k, size-after_prefix p s t e))
]

digits_closed-Within : (s : String) → Within (size s) (digits_closed s)
digits_closed-Within s =
    let (digits, rest) = span_class is_digit s in
    let (h, k) = span_class-Within is_digit s in
    if-Within _ (is_empty digits) none (and_then (after_prefix ">" rest) (λ t. some (digits, t))) tt
      (and_then-Within (size s) ">" rest digits h k)

match_inline_code-Shortens : (s : String) → Shortens (size s) (match_inline_code s)
match_inline_code-Shortens s =
    and_then-Shortens (size s) "`" s (λ t. code_leaf (not_empty (until_char 96 t)))
      (λ t e.
        code_leaf-Shortens (size t) (size s) (not_empty (until_char 96 t)) (omega (arith, e))
          (not_empty-Within _ (until_char 96 t) (until_char-Within 96 t)))

-- A leaf that is made of digits.
digits_leaf-Shortens :
    (m n : ℕ) (node : String → MarkdownNode) (o : Option (String × String))
    → m < n
    → Within m o
    → Shortens n (and_then o (λ d. some (leaf (node d.0) d.1)))
digits_leaf-Shortens m n node none h w = tt
digits_leaf-Shortens m n node (some (s, rest)) h w = omega (arith, h, w.1)

size-without_mark : (s : String) → size (without_mark s) ≤ size s
size-without_mark String.[] = omega arith
size-without_mark (String.◌∷◌ c s) = ground arith

match_user-Shortens : (s : String) → Shortens (size s) (match_user s)
match_user-Shortens s =
    and_then-Shortens (size s) "<@" s
      (λ t. and_then (digits_closed (without_mark t)) (λ m. some (leaf (user_mention m.0) m.1)))
      (λ t e.
        digits_leaf-Shortens (size (without_mark t)) (size s) user_mention
          (digits_closed (without_mark t)) (omega (arith, e, size-without_mark t))
          (digits_closed-Within (without_mark t)))

match_channel-Shortens : (s : String) → Shortens (size s) (match_channel s)
match_channel-Shortens s =
    and_then-Shortens (size s) "<#" s
      (λ t. and_then (digits_closed t) (λ m. some (leaf (channel_mention m.0) m.1)))
      (λ t e.
        digits_leaf-Shortens (size t) (size s) channel_mention (digits_closed t) (omega (arith, e))
          (digits_closed-Within t))

match_word-Shortens :
    (a : Char) (p : String) (node : MarkdownNode) (s : String)
    → Shortens (size s) (match_word (String.◌∷◌ a p) node s)
match_word-Shortens a p node s =
    and_then-Shortens (size s) (String.◌∷◌ a p) s (λ rest. some (leaf node rest))
      (λ t e. omega (arith, e))

link_to-Shortens :
    (m n : ℕ) (label : String) (o : Option (String × String))
    → size label < n
    → m < n
    → Within m o
    → Shortens n (link_to label o)
link_to-Shortens m n label none g h w = tt
link_to-Shortens m n label (some (url, rest)) g h w =
    if-Shortens n (is_web_url url) (some (wrap (link_span url) label rest)) none
      (g, omega (arith, h, w.1)) tt

link_behind-Shortens :
    (m n : ℕ) (o : Option (String × String)) → m < n → Within m o → Shortens n (link_behind o)
link_behind-Shortens m n none h w = tt
link_behind-Shortens m n (some (label, behind)) h w =
    and_then-Shortens n "(" behind (λ t. link_to label (until_char b')' t))
      (λ t e.
        link_to-Shortens (size t) n label (until_char b')' t) (omega (arith, h, w.0))
          (omega (arith, e, h, w.1)) (until_char-Within b')' t))

match_link-Shortens : (s : String) → Shortens (size s) (match_link s)
match_link-Shortens s =
    and_then-Shortens (size s) "[" s (λ t. link_behind (not_empty (until_char b']' t)))
      (λ t e.
        link_behind-Shortens (size t) (size s) (not_empty (until_char b']' t)) (omega (arith, e))
          (not_empty-Within _ (until_char b']' t) (until_char-Within b']' t)))

abbrev sizes : String × String → ℕ
sizes (a, b) = size a + size b

size-span_class : (p : ℕ → Bool) (s : String) → sizes (span_class p s) ≡ size s
unfolding span_class
size-span_class p String.[] = refl
size-span_class p (String.◌∷◌ c s) = span_step (p (code c)) (span_class p s) (size-span_class p s)
  where
    span_step :
        (b : Bool) (rest : String × String)
        → sizes rest ≡ size s
        → sizes (if b then (String.◌∷◌ c rest.0, rest.1) else ("", String.◌∷◌ c s)) ≡ suc (size s)
    span_step true rest e = omega (arith, e)
    span_step false rest e = omega arith

url_leaf-Shortens :
    (n : ℕ) (url rest : String) → size url + size rest ≡ n → Shortens n (url_leaf (url, rest))
unfolding after_prefix
url_leaf-Shortens n String.[] rest e = tt
url_leaf-Shortens n (String.◌∷◌ c url) rest e =
    let whole = String.◌∷◌ c url in
    if-Shortens n (is_web_url whole) (some (leaf (link whole (cons (text whole) nil)) rest)) none
      (omega (arith, e)) tt

match_bare_url-Shortens : (s : String) → Shortens (size s) (match_bare_url s)
match_bare_url-Shortens s =
    url_leaf-Shortens (size s) (span_class is_url_char s).0 (span_class is_url_char s).1
      (size-span_class is_url_char s)

first_match-Shortens :
    (patterns : List (String → Option Match)) (s : String)
    → All (λ (p : String → Option Match). Shortens (size s) (p s)) patterns
    → Shortens (size s) (first_match patterns s)
first_match-Shortens [] s h = tt
first_match-Shortens (p ∷ patterns) s h =
    either (p s) (first_match patterns s) h.0 (first_match-Shortens patterns s h.1)
  where
    either :
        (a b : Option Match)
        → Shortens (size s) a
        → Shortens (size s) b
        → Shortens (size s) (or_match a b)
    either none b h k = k
    either (some m) b h k = h

-- A match leaves less than there was, and its inside is shorter too.
pub match_inline-Shortens : (s : String) → Shortens (size s) (match_inline s)
unfolding match_inline
match_inline-Shortens s = first_match-Shortens inline_patterns s (
  match_inline_code-Shortens s,
  (
    match_pair-Shortens "|" "|" b'|' spoiler_span s,
    (
      match_pair-Shortens "*" "*" b'*' bold_span s,
      (
        match_pair-Shortens "_" "_" b'_' underline_span s,
        (
          match_italic-Shortens "*" b'*' s,
          (
            match_italic-Shortens "_" b'_' s,
            (
              match_pair-Shortens "~" "~" b'~' strikethrough_span s,
              (
                match_user-Shortens s,
                (
                  match_channel-Shortens s,
                  (
                    match_word-Shortens "@" "everyone" everyone_mention s,
                    (
                      match_word-Shortens "@" "here" here_mention s,
                      (match_link-Shortens s, (match_bare_url-Shortens s, tt)),
                    ),
                  ),
                ),
              ),
            ),
          ),
        ),
      ),
    ),
  ),
)
