-- ===== src/Markdown/Inline.antt =====
-- shared/lib/parse-markdown.ts: `parseInline`.
use Prim.Native.Char.{Char}
use Prim.Native.String
use link_lynx_ai.Common.{ℕ, zero, suc, String, Option, none, some}
use link_lynx_ai.Markdown.Nodes.{MarkdownNodes, nil, cons, flush_text}
use link_lynx_ai.Markdown.Patterns.{Match, leaf, wrap, span_node, match_inline}

abbrev pub size : String → ℕ
size String.[] = 0
size (String.◌∷◌ c s) = suc (size s)

-- The loop at one character: what is parsed further is an argument, `inline` without text before it.
abbrev pub inline_step :
    (String → String → MarkdownNodes) → String → Char → String → Option Match → MarkdownNodes
inline_step inline text_buf c s none = inline (String.◌++◌ text_buf (String.◌∷◌ c "")) s
inline_step inline text_buf c s (some (leaf node rest)) =
    flush_text text_buf (cons node (inline "" rest))
inline_step inline text_buf c s (some (wrap span inside rest)) =
    flush_text text_buf (cons (span_node span (inline "" inside)) (inline "" rest))

-- The loop of `parseInline` with `textBuf`, on fuel.
unfoldable pub inline_from : ℕ → String → String → MarkdownNodes
unfolding match_inline
inline_from zero text_buf s = flush_text text_buf nil
inline_from (suc n) text_buf String.[] = flush_text text_buf nil
inline_from (suc n) text_buf (String.◌∷◌ c s) =
    inline_step (inline_from n) text_buf c s (match_inline (String.◌∷◌ c s))

-- Each round takes a character at least.
abbrev pub inline_loop : String → String → MarkdownNodes
inline_loop text_buf s = inline_from (size s) text_buf s

unfoldable pub parse_inline : String → MarkdownNodes
unfolding inline_from
parse_inline s = inline_loop "" s
