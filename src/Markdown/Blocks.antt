-- ===== src/Markdown/Blocks.antt =====
-- shared/lib/parse-markdown.ts: `parseDiscordMarkdown`, the lines of a message.
use Prim.Native.Char.{Char, code}
use Prim.Native.String
use link_lynx_ai.Common.{
  ℕ, zero, suc, String, Bool, false, not, ◌&&◌, ◌||◌, List, [], ◌∷◌, Option, none, some,
  if◌then◌else◌, ◌==◌, leb, is_empty, is_blank, is_space, trim_start, after_prefix, length,
}
use link_lynx_ai.Timeline.{same}
use link_lynx_ai.Markdown.Nodes.{
  Level, one, two, three, MarkdownNodes, nil, cons, append, code_block, blockquote, heading,
  newline,
}
use link_lynx_ai.Markdown.Patterns.{span_class, is_line_terminator}
use link_lynx_ai.Markdown.Inline.{parse_inline}

abbrev onto_line : Char → List String → List String
onto_line c [] = String.◌∷◌ c "" ∷ []
onto_line c (s ∷ lines) = String.◌∷◌ c s ∷ lines

-- `input.split("\n")`
unfoldable pub split_lines : String → List String
split_lines String.[] = "" ∷ []
split_lines (String.◌∷◌ c s) =
    let rest = split_lines s in if code c == 10 then "" ∷ rest else onto_line c rest

-- `lines.join("\n")`
abbrev pub join_lines : List String → String
join_lines [] = ""
join_lines (s ∷ []) = s
join_lines (s ∷ t ∷ lines) = String.◌++◌ s (String.◌++◌ "\n" (join_lines (t ∷ lines)))

abbrev is_word_char : ℕ → Bool
is_word_char c =
    (leb b'A' c && leb c b'Z')
    || (leb b'a' c && leb c b'z')
    || (leb b'0' c && leb c b'9')
    || c == b'_'

abbrev language_of : Option String → Option String
language_of none = none
language_of (some s) =
    let (word, rest) = span_class is_word_char s in if is_blank rest then some word else none

-- /^```(\w*)\s*$/
abbrev pub match_code_block : String → Option String
match_code_block line = language_of (after_prefix "```" line)

abbrev is_blank_rest : Option String → Bool
is_blank_rest none = false
is_blank_rest (some s) = is_blank s

-- /^```\s*$/
abbrev pub is_closing : String → Bool
is_closing line = is_blank_rest (after_prefix "```" line)

abbrev has_line_terminator : String → Bool
has_line_terminator String.[] = false
has_line_terminator (String.◌∷◌ c s) = is_line_terminator (code c) || has_line_terminator s

-- The last character of a text of white space with two characters or more: `\s+` leaves it to `.+`.
abbrev last_space : String → Option String
last_space String.[] = none
last_space (String.◌∷◌ c String.[]) = none
last_space (String.◌∷◌ c (String.◌∷◌ d String.[])) =
    if is_line_terminator (code d) then none else some (String.◌∷◌ d "")
last_space (String.◌∷◌ c (String.◌∷◌ d (String.◌∷◌ e s))) =
    last_space (String.◌∷◌ d (String.◌∷◌ e s))

abbrev starts_with_space : String → Bool
starts_with_space String.[] = false
starts_with_space (String.◌∷◌ c s) = is_space (code c)

-- /\s+(.+)$/ behind the marks of a heading.
abbrev heading_text : String → Option String
heading_text s =
    let rest = trim_start s in
    if not (starts_with_space s)
    then none
    else if is_empty rest
    then last_space s
    else if has_line_terminator rest
    then none
    else some rest

abbrev at_level : Level → Option String → Option (Level × String)
at_level level none = none
at_level level (some s) = some (level, s)

-- The marks that are taken are all: a mark is no white space.
abbrev heading_marks : String → Option (Level × String)
heading_marks s = elim (after_prefix "###" s) [
  | some rest ↦ at_level three (heading_text rest)
  | none ↦ elim (after_prefix "##" s) [
    | some rest ↦ at_level two (heading_text rest)
    | none ↦ elim (after_prefix "#" s) [
      | some rest ↦ at_level one (heading_text rest)
      | none ↦ none
    ]
  ]
]

-- /^(#{1,3})\s+(.+)$/
unfoldable pub match_heading : String → Option (Level × String)
unfolding after_prefix trim_start is_space is_empty
match_heading line = heading_marks line

-- The line without its quotation mark, if it has one.
unfoldable pub quoted : String → Option String
unfolding after_prefix
quoted line = elim (after_prefix "> " line) [
  | some rest ↦ some rest
  | none ↦ if same line ">" then some "" else none
]

-- The lines of a code block, and the lines behind its closing.
unfoldable pub code_lines : List String → List String × List String
unfolding after_prefix is_blank
code_lines [] = ([], [])
code_lines (line ∷ lines) =
    let rest = code_lines lines in if is_closing line then ([], lines) else (line ∷ rest.0, rest.1)

-- The quoted lines, and the lines behind them.
unfoldable pub quote_lines : List String → List String × List String
unfolding quoted
quote_lines [] = ([], [])
quote_lines (line ∷ lines) =
    let rest = quote_lines lines in
    elim (quoted line) [ some s ↦ (s ∷ rest.0, rest.1) | none ↦ ([], line ∷ lines) ]

-- A newline in front of what follows, if a line follows.
abbrev pub newline_if_more : List String → MarkdownNodes → MarkdownNodes
newline_if_more [] rest = rest
newline_if_more (line ∷ lines) rest = cons newline rest

-- What the loop does with a line: code, a heading, a quotation or inline elements; `blocks` goes on.
abbrev pub plain_line : (List String → MarkdownNodes) → String → List String → MarkdownNodes
plain_line blocks line lines = append (parse_inline line) (newline_if_more lines (blocks lines))

abbrev pub quote_or_plain :
    (List String → MarkdownNodes) → String → List String → Option String → MarkdownNodes
quote_or_plain blocks line lines none = plain_line blocks line lines
quote_or_plain blocks line lines (some s) =
    let (quotes, rest) = quote_lines lines in
    cons (blockquote (parse_inline (join_lines (s ∷ quotes)))) (blocks rest)

abbrev pub heading_or :
    (List String → MarkdownNodes) → String → List String → Option (Level × String) → MarkdownNodes
heading_or blocks line lines none = quote_or_plain blocks line lines (quoted line)
heading_or blocks line lines (some (level, s)) =
    cons (heading level (parse_inline s)) (newline_if_more lines (blocks lines))

abbrev pub block_step :
    (List String → MarkdownNodes) → String → List String → Option String → MarkdownNodes
block_step blocks line lines none = heading_or blocks line lines (match_heading line)
block_step blocks line lines (some language) =
    let (content, rest) = code_lines lines in
    cons (code_block language (join_lines content)) (blocks rest)

-- The loop of `parseDiscordMarkdown`, on fuel.
unfoldable pub blocks_from : ℕ → List String → MarkdownNodes
unfolding after_prefix span_class is_blank match_heading quoted code_lines quote_lines parse_inline
blocks_from zero lines = nil
blocks_from (suc n) [] = nil
blocks_from (suc n) (line ∷ lines) = block_step (blocks_from n) line lines (match_code_block line)

-- Each round takes a line at least.
abbrev pub blocks_loop : List String → MarkdownNodes
blocks_loop lines = blocks_from (length lines) lines

unfoldable pub parse_discord_markdown : String → MarkdownNodes
unfolding is_empty split_lines blocks_from
parse_discord_markdown input = if is_empty input then nil else blocks_loop (split_lines input)
