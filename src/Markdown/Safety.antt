-- ===== src/Markdown/Safety.antt =====
-- shared/lib/parse-markdown.ts: the links and the mentions that a message can have.
use Prim.Native.Char.{Char, code}
use link_lynx_ai.Common.{
  ℕ, String, Bool, true, false, not, ◌&&◌, List, [], ◌∷◌, Option, none, some, ◌≡◌, refl, arith,
  if◌then◌else◌, is_empty, after_prefix, All,
}
use link_lynx_ai.Markdown.Nodes.{
  MarkdownNode, MarkdownNodes, nil, cons, text, bold, italic, underline, strikethrough, inline_code,
  code_block, blockquote, spoiler, heading, link, user_mention, channel_mention, everyone_mention,
  here_mention, newline,
}
use link_lynx_ai.Markdown.Patterns.{
  Match, leaf, wrap, Span, bold_span, italic_span, underline_span, strikethrough_span, spoiler_span,
  link_span, match_inline, is_web_url, is_digit, span_class, and_then, until_char, not_empty,
  unless_first, lazy_pair, wrapped, code_leaf, digits_closed, without_mark, match_pair,
  match_italic, match_inline_code, match_user, match_channel, match_word, link_to, link_behind,
  match_link, url_leaf, is_url_char, or_match, first_match, inline_patterns,
}

unfoldable pub has_only_digits : String → Bool
has_only_digits String.[] = true
has_only_digits (String.◌∷◌ c s) = is_digit (code c) && has_only_digits s

-- A number that is written in digits.
abbrev pub is_id : String → Bool
is_id s = not (is_empty s) && has_only_digits s

-- At every depth, the links are to http or https and the mentions are of numbers.
unfoldable mutual
  pub is_safe : MarkdownNode → Bool
  is_safe (text s) = true
  is_safe (bold children) = are_safe children
  is_safe (italic children) = are_safe children
  is_safe (underline children) = are_safe children
  is_safe (strikethrough children) = are_safe children
  is_safe (inline_code s) = true
  is_safe (code_block language s) = true
  is_safe (blockquote children) = are_safe children
  is_safe (spoiler children) = are_safe children
  is_safe (heading level children) = are_safe children
  is_safe (link url children) = is_web_url url && are_safe children
  is_safe (user_mention s) = is_id s
  is_safe (channel_mention s) = is_id s
  is_safe everyone_mention = true
  is_safe here_mention = true
  is_safe newline = true

  pub are_safe : MarkdownNodes → Bool
  are_safe nil = true
  are_safe (cons x xs) = is_safe x && are_safe xs

abbrev pub is_safe_span : Span → Bool
is_safe_span (link_span url) = is_web_url url
is_safe_span _ = true

abbrev pub is_safe_match : Option Match → Bool
is_safe_match none = true
is_safe_match (some (leaf node rest)) = is_safe node
is_safe_match (some (wrap span inside rest)) = is_safe_span span

and_then-safe :
    {A : Type 0} (o : Option A) (k : A → Option Match)
    → ((a : A) → is_safe_match (k a) ≡ true)
    → is_safe_match (and_then o k) ≡ true
and_then-safe none k f = refl
and_then-safe (some a) k f = f a

wrapped-safe :
    (span : Span) (o : Option (String × String))
    → is_safe_span span ≡ true
    → is_safe_match (wrapped span o) ≡ true
wrapped-safe span none e = refl
wrapped-safe span (some (s, rest)) e = e

code_leaf-safe : (o : Option (String × String)) → is_safe_match (code_leaf o) ≡ true
unfolding is_safe
code_leaf-safe none = refl
code_leaf-safe (some (s, rest)) = refl

has_only_digits-taken :
    (b : Bool) (c : Char) (s : String) (m : String × String)
    → is_digit (code c) ≡ b
    → has_only_digits m.0 ≡ true
    → has_only_digits
        (if◌then◌else◌ {A = String × String} b (String.◌∷◌ c m.0, m.1) ("", String.◌∷◌ c s)).0
      ≡ true
unfolding has_only_digits
has_only_digits-taken true c s m e h = rw e h
has_only_digits-taken false c s m e h = refl

has_only_digits-span : (s : String) → has_only_digits (span_class is_digit s).0 ≡ true
unfolding span_class has_only_digits
has_only_digits-span String.[] = refl
has_only_digits-span (String.◌∷◌ c s) =
    has_only_digits-taken (is_digit (code c)) c s (span_class is_digit s) refl
      (has_only_digits-span s)

abbrev is_id_pair : Option (String × String) → Bool
is_id_pair none = true
is_id_pair (some (digits, rest)) = is_id digits

digits_closed-is_id : (s : String) → is_id_pair (digits_closed s) ≡ true
digits_closed-is_id s =
    closed (span_class is_digit s).0 (after_prefix ">" (span_class is_digit s).1)
      (has_only_digits-span s)
  where
    closed :
        (digits : String) (o : Option String)
        → has_only_digits digits ≡ true
        → is_id_pair (if is_empty digits then none else and_then o (λ t. some (digits, t))) ≡ true
    closed digits none h = ground arith
    closed digits (some t) h = ground arith

user_leaf-safe :
    (o : Option (String × String))
    → is_id_pair o ≡ true
    → is_safe_match (and_then o (λ m. some (leaf (user_mention m.0) m.1))) ≡ true
unfolding is_safe
user_leaf-safe none e = refl
user_leaf-safe (some (digits, rest)) e = e

channel_leaf-safe :
    (o : Option (String × String))
    → is_id_pair o ≡ true
    → is_safe_match (and_then o (λ m. some (leaf (channel_mention m.0) m.1))) ≡ true
unfolding is_safe
channel_leaf-safe none e = refl
channel_leaf-safe (some (digits, rest)) e = e

link_to-safe :
    (label : String) (o : Option (String × String)) → is_safe_match (link_to label o) ≡ true
link_to-safe label none = refl
link_to-safe label (some (url, rest)) = checked (is_web_url url) refl
  where
    checked :
        (b : Bool)
        → is_web_url url ≡ b
        → is_safe_match (if b then some (wrap (link_span url) label rest) else none) ≡ true
    checked true e = e
    checked false e = refl

link_behind-safe : (o : Option (String × String)) → is_safe_match (link_behind o) ≡ true
link_behind-safe none = refl
link_behind-safe (some (label, behind)) =
    and_then-safe (after_prefix "(" behind) (λ t. link_to label (until_char b')' t))
      (λ t. link_to-safe label (until_char b')' t))

url_leaf-safe : (m : String × String) → is_safe_match (url_leaf m) ≡ true
unfolding is_safe
url_leaf-safe (url, rest) = checked (is_web_url url) refl
  where
    checked :
        (b : Bool)
        → is_web_url url ≡ b
        → is_safe_match (if b then some (leaf (link url (cons (text url) nil)) rest) else none)
          ≡ true
    checked true e = rw e refl
    checked false e = refl

match_pair-safe :
    (opening : String) (c : ℕ) (span : Span) (s : String)
    → is_safe_span span ≡ true
    → is_safe_match (match_pair opening c span s) ≡ true
match_pair-safe opening c span s e =
    and_then-safe (after_prefix opening s) (λ t. wrapped span (lazy_pair c t))
      (λ t. wrapped-safe span (lazy_pair c t) e)

match_italic-safe :
    (opening : String) (c : ℕ) (s : String) → is_safe_match (match_italic opening c s) ≡ true
match_italic-safe opening c s =
    and_then-safe (after_prefix opening s)
      (λ t. wrapped italic_span (unless_first c (not_empty (until_char c t))))
      (λ t. wrapped-safe italic_span (unless_first c (not_empty (until_char c t))) refl)

match_word-safe :
    (word : String) (node : MarkdownNode) (s : String)
    → is_safe node ≡ true
    → is_safe_match (match_word word node s) ≡ true
match_word-safe word node s e =
    and_then-safe (after_prefix word s) (λ rest. some (leaf node rest)) (λ rest. e)

first_match-safe :
    (patterns : List (String → Option Match)) (s : String)
    → All (λ (p : String → Option Match). is_safe_match (p s) ≡ true) patterns
    → is_safe_match (first_match patterns s) ≡ true
first_match-safe [] s h = refl
first_match-safe (p ∷ patterns) s h =
    either (p s) (first_match patterns s) h.0 (first_match-safe patterns s h.1)
  where
    either :
        (a b : Option Match)
        → is_safe_match a ≡ true
        → is_safe_match b ≡ true
        → is_safe_match (or_match a b) ≡ true
    either none b h k = k
    either (some m) b h k = h

match_inline_code-safe : (s : String) → is_safe_match (match_inline_code s) ≡ true
match_inline_code-safe s =
    and_then-safe (after_prefix "`" s) (λ t. code_leaf (not_empty (until_char 96 t)))
      (λ t. code_leaf-safe (not_empty (until_char 96 t)))

match_user-safe : (s : String) → is_safe_match (match_user s) ≡ true
match_user-safe s =
    and_then-safe (after_prefix "<@" s)
      (λ t. and_then (digits_closed (without_mark t)) (λ m. some (leaf (user_mention m.0) m.1)))
      (λ t. user_leaf-safe (digits_closed (without_mark t)) (digits_closed-is_id (without_mark t)))

match_channel-safe : (s : String) → is_safe_match (match_channel s) ≡ true
match_channel-safe s =
    and_then-safe (after_prefix "<#" s)
      (λ t. and_then (digits_closed t) (λ m. some (leaf (channel_mention m.0) m.1)))
      (λ t. channel_leaf-safe (digits_closed t) (digits_closed-is_id t))

match_link-safe : (s : String) → is_safe_match (match_link s) ≡ true
match_link-safe s =
    and_then-safe (after_prefix "[" s) (λ t. link_behind (not_empty (until_char b']' t)))
      (λ t. link_behind-safe (not_empty (until_char b']' t)))

everyone-safe : is_safe everyone_mention ≡ true
unfolding is_safe
everyone-safe = refl

here-safe : is_safe here_mention ≡ true
unfolding is_safe
here-safe = refl

pub match_inline-safe : (s : String) → is_safe_match (match_inline s) ≡ true
unfolding match_inline
match_inline-safe s = first_match-safe inline_patterns s (
  match_inline_code-safe s,
  (
    match_pair-safe "||" b'|' spoiler_span s refl,
    (
      match_pair-safe "**" b'*' bold_span s refl,
      (
        match_pair-safe "__" b'_' underline_span s refl,
        (
          match_italic-safe "*" b'*' s,
          (
            match_italic-safe "_" b'_' s,
            (
              match_pair-safe "~~" b'~' strikethrough_span s refl,
              (
                match_user-safe s,
                (
                  match_channel-safe s,
                  (
                    match_word-safe "@everyone" everyone_mention s everyone-safe,
                    (
                      match_word-safe "@here" here_mention s here-safe,
                      (match_link-safe s, (url_leaf-safe (span_class is_url_char s), tt)),
                    ),
                  ),
                ),
              ),
            ),
          ),
        ),
      ),
    ),
  ),
)
