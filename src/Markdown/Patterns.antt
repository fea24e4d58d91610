-- ===== src/Markdown/Patterns.antt =====
-- shared/lib/parse-markdown.ts: `INLINE_PATTERNS`, in their order.
use Prim.Native.Char.{Char, code}
use link_lynx_ai.Common.{
  ℕ, String, Bool, false, not, ◌&&◌, ◌||◌, Option, none, some, if◌then◌else◌, ◌==◌, leb, is_empty,
  is_space, after_prefix, List, [], ◌∷◌,
}
use link_lynx_ai.Markdown.Nodes.{
  MarkdownNode, MarkdownNodes, nil, cons, text, bold, italic, underline, strikethrough, inline_code,
  spoiler, link, user_mention, channel_mention, everyone_mention, here_mention,
}

-- The nodes with an inside that is parsed in its turn.
pub data Span : Type 0 where
  bold_span italic_span underline_span strikethrough_span spoiler_span : Span
  link_span : String → Span

-- A match: a node, or a span with its inside; and what is left behind it.
pub data Match : Type 0 where
  leaf : MarkdownNode → String → Match
  wrap : Span → String → String → Match

abbrev pub span_node : Span → MarkdownNodes → MarkdownNode
span_node bold_span children = bold children
span_node italic_span children = italic children
span_node underline_span children = underline children
span_node strikethrough_span children = strikethrough children
span_node spoiler_span children = spoiler children
span_node (link_span url) children = link url children

-- What `.` does not match.
abbrev pub is_line_terminator : ℕ → Bool
is_line_terminator c = c == 10 || c == 13 || c == 0x2028 || c == 0x2029

abbrev pub is_digit : ℕ → Bool
is_digit c = leb b'0' c && leb c b'9'

abbrev pub first_is : ℕ → String → Bool
first_is c String.[] = false
first_is c (String.◌∷◌ d s) = code d == c

-- A character in front of the first of two texts.
abbrev pub onto : Char → Option (String × String) → Option (String × String)
onto c none = none
onto c (some (s, rest)) = some (String.◌∷◌ c s, rest)

-- `[^c]*` up to a `c`, and what is behind it.
unfoldable pub until_char : ℕ → String → Option (String × String)
until_char c String.[] = none
until_char c (String.◌∷◌ d s) =
    let rest = until_char c s in if code d == c then some ("", s) else onto d rest

-- Nothing up to a delimiter of which one character is left.
abbrev pub tail_of : String → Option (String × String)
tail_of String.[] = none
tail_of (String.◌∷◌ e s) = some ("", s)

-- `.*?` up to a delimiter of two `c`, and what is behind it.
unfoldable pub until_pair : ℕ → String → Option (String × String)
until_pair c String.[] = none
until_pair c (String.◌∷◌ d s) =
    let rest = until_pair c s in
    if code d == c && first_is c s
    then tail_of s
    else if is_line_terminator (code d)
    then none
    else onto d rest

-- The longest start of characters in a class, and the rest.
unfoldable pub span_class : (ℕ → Bool) → String → String × String
span_class p String.[] = ("", "")
span_class p (String.◌∷◌ c s) =
    let rest = span_class p s in
    if p (code c) then (String.◌∷◌ c rest.0, rest.1) else ("", String.◌∷◌ c s)

abbrev pub not_empty : Option (String × String) → Option (String × String)
not_empty none = none
not_empty (some (s, rest)) = if is_empty s then none else some (s, rest)

abbrev pub and_then {ℓ κ} : {A : Type ℓ} {B : Type κ} → Option A → (A → Option B) → Option B
and_then none k = none
and_then (some a) k = k a

-- `(.+?)` up to a delimiter.
abbrev pub lazy_pair : ℕ → String → Option (String × String)
lazy_pair c String.[] = none
lazy_pair c (String.◌∷◌ d s) = if is_line_terminator (code d) then none else onto d (until_pair c s)

abbrev pub wrapped : Span → Option (String × String) → Option Match
wrapped span none = none
wrapped span (some (inside, rest)) = some (wrap span inside rest)

-- /^||(.+?)||/ and the like: a prefix of two `c`.
abbrev pub match_pair : String → ℕ → Span → String → Option Match
match_pair opening c span s = and_then (after_prefix opening s) (λ t. wrapped span (lazy_pair c t))

abbrev pub unless_first : ℕ → Option (String × String) → Option (String × String)
unless_first c none = none
unless_first c (some (s, rest)) = if first_is c rest then none else some (s, rest)

-- /^c([^c]+?)c(?!c)/
abbrev pub match_italic : String → ℕ → String → Option Match
match_italic opening c s =
    and_then (after_prefix opening s)
      (λ t. wrapped italic_span (unless_first c (not_empty (until_char c t))))

abbrev pub code_leaf : Option (String × String) → Option Match
code_leaf none = none
code_leaf (some (content, rest)) = some (leaf (inline_code content) rest)

-- /^`([^`]+)`/
abbrev pub match_inline_code : String → Option Match
match_inline_code s = and_then (after_prefix "`" s) (λ t. code_leaf (not_empty (until_char 96 t)))

-- /(\d+)>/
abbrev pub digits_closed : String → Option (String × String)
digits_closed s =
    let (digits, rest) = span_class is_digit s in
    if is_empty digits then none else and_then (after_prefix ">" rest) (λ t. some (digits, t))

abbrev pub without_mark : String → String
without_mark String.[] = ""
without_mark (String.◌∷◌ c s) = if code c == b'!' then s else String.◌∷◌ c s

-- /^<@!?(\d+)>/
abbrev pub match_user : String → Option Match
match_user s =
    and_then (after_prefix "<@" s)
      (λ t. and_then (digits_closed (without_mark t)) (λ m. some (leaf (user_mention m.0) m.1)))

-- /^<#(\d+)>/
abbrev pub match_channel : String → Option Match
match_channel s =
    and_then (after_prefix "<#" s)
      (λ t. and_then (digits_closed t) (λ m. some (leaf (channel_mention m.0) m.1)))

abbrev pub match_word : String → MarkdownNode → String → Option Match
match_word word node s = and_then (after_prefix word s) (λ rest. some (leaf node rest))

-- /https?:\/\/[^...]+/ at the whole of a text of the class.
abbrev pub is_web_url : String → Bool
is_web_url s = is_long (after_prefix "https://" s) || is_long (after_prefix "http://" s)
  where
    is_long : Option String → Bool
    is_long none = false
    is_long (some rest) = not (is_empty rest)

abbrev pub link_to : String → Option (String × String) → Option Match
link_to label none = none
link_to label (some (url, rest)) =
    if is_web_url url then some (wrap (link_span url) label rest) else none

abbrev pub link_behind : Option (String × String) → Option Match
link_behind none = none
link_behind (some (label, behind)) =
    and_then (after_prefix "(" behind) (λ t. link_to label (until_char b')' t))

-- /^\[([^\]]+)\]\((https?:\/\/[^)]+)\)/
abbrev pub match_link : String → Option Match
match_link s = and_then (after_prefix "[" s) (λ t. link_behind (not_empty (until_char b']' t)))

abbrev pub is_url_char : ℕ → Bool
is_url_char c = not (is_space c) && not (c == b'<') && not (c == b'>')

abbrev pub url_leaf : String × String → Option Match
url_leaf (url, rest) =
    if is_web_url url then some (leaf (link url (cons (text url) nil)) rest) else none

-- /^(https?:\/\/[^\s<>]+)/: no character of the scheme is outside the class.
abbrev pub match_bare_url : String → Option Match
match_bare_url s = url_leaf (span_class is_url_char s)

abbrev pub or_match : Option Match → Option Match → Option Match
or_match none m = m
or_match (some x) m = some x

-- The first pattern that matches.
abbrev pub first_match : List (String → Option Match) → String → Option Match
first_match [] s = none
first_match (p ∷ patterns) s = or_match (p s) (first_match patterns s)

abbrev pub inline_patterns : List (String → Option Match)
inline_patterns =
    match_inline_code
    ∷ match_pair "||" b'|' spoiler_span
    ∷ match_pair "**" b'*' bold_span
    ∷ match_pair "__" b'_' underline_span
    ∷ match_italic "*" b'*'
    ∷ match_italic "_" b'_'
    ∷ match_pair "~~" b'~' strikethrough_span
    ∷ match_user
    ∷ match_channel
    ∷ match_word "@everyone" everyone_mention
    ∷ match_word "@here" here_mention
    ∷ match_link
    ∷ match_bare_url
    ∷ []

unfoldable pub match_inline : String → Option Match
unfolding after_prefix until_char until_pair span_class is_empty is_space
match_inline s = first_match inline_patterns s
