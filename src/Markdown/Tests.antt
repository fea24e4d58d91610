-- ===== src/Markdown/Tests.antt =====
-- The parser of messages on concrete texts.
use link_lynx_ai.Common.{str_discrete, [], ◌∷◌, ◌≡◌, refl, true}
use link_lynx_ai.Markdown.Nodes.{
  Level, nil, cons, text, bold, link, user_mention, code_block, blockquote, heading, newline,
}
use link_lynx_ai.Markdown.Patterns.{match_inline}
use link_lynx_ai.Markdown.Inline.{inline_loop, inline_step}
use link_lynx_ai.Markdown.Blocks.{parse_discord_markdown, blocks_loop, block_step, match_code_block}
use link_lynx_ai.Markdown.Fuel.{inline_loop-step}
use link_lynx_ai.Markdown.BlockFuel.{blocks_loop-step}
use link_lynx_ai.Markdown.Safety.{are_safe}
use link_lynx_ai.Markdown.SafeBlocks.{parse_discord_markdown-safe}

bold_test :
    parse_discord_markdown "a **b *c*** <@!12>"
    ≡ cons
        (text "a ")
        (cons (bold (cons (text "b *c") nil)) (cons (text "* ") (cons (user_mention "12") nil)))
unfolding parse_discord_markdown str_discrete
bold_test = refl

script_test : parse_discord_markdown "[x](javascript:1)" ≡ cons (text "[x](javascript:1)") nil
unfolding parse_discord_markdown str_discrete
script_test = refl

link_test :
    parse_discord_markdown "[x](http://a)" ≡ cons (link "http://a" (cons (text "x") nil)) nil
unfolding parse_discord_markdown str_discrete
link_test = refl

lines_test :
    parse_discord_markdown "# T\n```js\n1\n```\n> q\nend"
    ≡ cons (heading Level.one (cons (text "T") nil)) (
        cons newline (
          cons
            (code_block "js" "1")
            (cons (blockquote (cons (text "q") nil)) (cons (text "end") nil))))
unfolding parse_discord_markdown str_discrete
lines_test = refl

inline_loop-step_example :
    inline_loop "x" "**a**" ≡ inline_step inline_loop "x" "*" "*a**" (match_inline "**a**")
inline_loop-step_example = inline_loop-step "x" "*" "*a**"

blocks_loop-step_example :
    blocks_loop ("```" ∷ "a" ∷ [])
    ≡ block_step blocks_loop "```" ("a" ∷ []) (match_code_block "```")
blocks_loop-step_example = blocks_loop-step "```" ("a" ∷ [])

parse_discord_markdown-safe_example : are_safe (parse_discord_markdown "||[x](http://a)||") ≡ true
parse_discord_markdown-safe_example = parse_discord_markdown-safe "||[x](http://a)||"
