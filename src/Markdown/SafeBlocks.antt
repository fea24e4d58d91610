-- ===== src/Markdown/SafeBlocks.antt =====
-- shared/lib/parse-markdown.ts: the links and the mentions of a whole message.
use Prim.Native.Char.{Char}
use Prim.Native.String
use link_lynx_ai.Common.{
  ℕ, zero, suc, String, true, List, [], ◌∷◌, Option, none, some, ◌≡◌, refl, arith, is_empty,
  Bool-cases, inl, inr,
}
use link_lynx_ai.Markdown.Nodes.{
  MarkdownNode, MarkdownNodes, Level, nil, cons, append, flush_text, blockquote, heading,
  code_block,
}
use link_lynx_ai.Markdown.Patterns.{
  Match, leaf, wrap, Span, bold_span, italic_span, underline_span, strikethrough_span, spoiler_span,
  link_span, span_node, match_inline,
}
use link_lynx_ai.Markdown.Inline.{inline_step, inline_from, parse_inline, size}
use link_lynx_ai.Markdown.Blocks.{
  block_step, heading_or, quote_or_plain, plain_line, newline_if_more, join_lines, blocks_from,
  match_heading, match_code_block, quoted, code_lines, quote_lines, split_lines,
  parse_discord_markdown,
}
use link_lynx_ai.Markdown.Safety.{is_safe, are_safe, is_safe_match, is_safe_span, match_inline-safe}

flush_text-safe :
    (text_buf : String) (rest : MarkdownNodes)
    → are_safe rest ≡ true
    → are_safe (flush_text text_buf rest) ≡ true
unfolding is_safe
flush_text-safe text_buf rest e = elim (Bool-cases (is_empty text_buf)) [
  | inl h ↦ rw h e
  | inr h ↦ rw h e
]

span_node-safe :
    (span : Span) (children : MarkdownNodes)
    → is_safe_span span ≡ true
    → are_safe children ≡ true
    → is_safe (span_node span children) ≡ true
unfolding is_safe
span_node-safe bold_span children e h = h
span_node-safe italic_span children e h = h
span_node-safe underline_span children e h = h
span_node-safe strikethrough_span children e h = h
span_node-safe spoiler_span children e h = h
span_node-safe (link_span url) children e h = rw (e, h) refl

cons-safe :
    (x : MarkdownNode) (xs : MarkdownNodes)
    → is_safe x ≡ true
    → are_safe xs ≡ true
    → are_safe (cons x xs) ≡ true
unfolding is_safe
cons-safe x xs e f = rw (e, f) refl

inline_step-safe :
    (inline : String → String → MarkdownNodes) (text_buf : String) (c : Char) (s : String)
    (o : Option Match)
    → ((b t : String) → are_safe (inline b t) ≡ true)
    → is_safe_match o ≡ true
    → are_safe (inline_step inline text_buf c s o) ≡ true
inline_step-safe inline text_buf c s none f e = f (String.◌++◌ text_buf (String.◌∷◌ c "")) s
inline_step-safe inline text_buf c s (some (leaf node rest)) f e =
    flush_text-safe text_buf (cons node (inline "" rest))
      (cons-safe node (inline "" rest) e (f "" rest))
inline_step-safe inline text_buf c s (some (wrap span inside rest)) f e =
    flush_text-safe text_buf (cons (span_node span (inline "" inside)) (inline "" rest)) (
      cons-safe (span_node span (inline "" inside)) (inline "" rest)
        (span_node-safe span (inline "" inside) e (f "" inside)) (f "" rest))

nil-safe : are_safe nil ≡ true
unfolding is_safe
nil-safe = refl

inline_from-safe : (n : ℕ) (text_buf s : String) → are_safe (inline_from n text_buf s) ≡ true
unfolding inline_from
inline_from-safe zero text_buf s = flush_text-safe text_buf nil nil-safe
inline_from-safe (suc n) text_buf String.[] = flush_text-safe text_buf nil nil-safe
inline_from-safe (suc n) text_buf (String.◌∷◌ c s) =
    inline_step-safe (inline_from n) text_buf c s (match_inline (String.◌∷◌ c s))
      (inline_from-safe n) (match_inline-safe (String.◌∷◌ c s))

parse_inline-safe : (s : String) → are_safe (parse_inline s) ≡ true
unfolding parse_inline
parse_inline-safe s = inline_from-safe (size s) "" s

append-safe :
    (xs ys : MarkdownNodes)
    → are_safe xs ≡ true
    → are_safe ys ≡ true
    → are_safe (append xs ys) ≡ true
unfolding is_safe
append-safe nil ys e f = f
append-safe (cons x xs) ys e f = ground (arith, append-safe xs ys)

newline_if_more-safe :
    (lines : List String) (rest : MarkdownNodes)
    → are_safe rest ≡ true
    → are_safe (newline_if_more lines rest) ≡ true
unfolding is_safe
newline_if_more-safe [] rest e = e
newline_if_more-safe (line ∷ lines) rest e = e

module _ (blocks : List String → MarkdownNodes)
    (f : (lines : List String) → are_safe (blocks lines) ≡ true) where
  plain_line-safe :
      (line : String) (lines : List String) → are_safe (plain_line blocks line lines) ≡ true
  plain_line-safe line lines =
      append-safe (parse_inline line) (newline_if_more lines (blocks lines))
        (parse_inline-safe line) (newline_if_more-safe lines (blocks lines) (f lines))

  quote_or_plain-safe :
      (line : String) (lines : List String) (o : Option String)
      → are_safe (quote_or_plain blocks line lines o) ≡ true
  unfolding is_safe
  quote_or_plain-safe line lines none = plain_line-safe line lines
  quote_or_plain-safe line lines (some s) =
      let (quotes, rest) = quote_lines lines in
      cons-safe (blockquote (parse_inline (join_lines (s ∷ quotes)))) (blocks rest)
        (parse_inline-safe (join_lines (s ∷ quotes))) (f rest)

  heading_or-safe :
      (line : String) (lines : List String) (o : Option (Level × String))
      → are_safe (heading_or blocks line lines o) ≡ true
  unfolding is_safe
  heading_or-safe line lines none = quote_or_plain-safe line lines (quoted line)
  heading_or-safe line lines (some (level, s)) =
      cons-safe (heading level (parse_inline s)) (newline_if_more lines (blocks lines))
        (parse_inline-safe s) (newline_if_more-safe lines (blocks lines) (f lines))

  block_step-safe :
      (line : String) (lines : List String) (o : Option String)
      → are_safe (block_step blocks line lines o) ≡ true
  unfolding is_safe
  block_step-safe line lines none = heading_or-safe line lines (match_heading line)
  block_step-safe line lines (some language) =
      let (content, rest) = code_lines lines in
      cons-safe (code_block language (join_lines content)) (blocks rest) refl (f rest)

blocks_from-safe : (n : ℕ) (lines : List String) → are_safe (blocks_from n lines) ≡ true
unfolding blocks_from
blocks_from-safe zero lines = nil-safe
blocks_from-safe (suc n) [] = nil-safe
blocks_from-safe (suc n) (line ∷ lines) =
    block_step-safe (blocks_from n) (blocks_from-safe n) line lines (match_code_block line)

-- Whatever a message says, every link in it, at any depth, is to http:// or https://, and every
-- mention of a user or a channel is of a number written in digits.
pub parse_discord_markdown-safe : (input : String) → are_safe (parse_discord_markdown input) ≡ true
unfolding parse_discord_markdown
parse_discord_markdown-safe input = elim (Bool-cases (is_empty input)) [
  | inl e ↦ rw e nil-safe
  | inr e ↦ rw e (blocks_from-safe _ (split_lines input))
]
