-- ===== src/Markdown/BlockFuel.antt =====
-- shared/lib/parse-markdown.ts: the loop of `parseDiscordMarkdown` ends.
use link_lynx_ai.Common.{
  ℕ, zero, suc, ◌≤◌, String, Bool, true, false, List, [], ◌∷◌, Option, none, some, ◌≡◌, refl, ap,
  arith, length, if◌then◌else◌,
}
use link_lynx_ai.Markdown.Nodes.{
  MarkdownNodes, Level, cons, append, code_block, blockquote, heading,
}
use link_lynx_ai.Markdown.Inline.{parse_inline}
use link_lynx_ai.Markdown.Blocks.{
  block_step, heading_or, quote_or_plain, plain_line, newline_if_more, join_lines, blocks_from,
  blocks_loop, match_heading, match_code_block, quoted, code_lines, quote_lines, is_closing,
}

length-code_lines : (lines : List String) → length (code_lines lines).1 ≤ length lines
unfolding code_lines
length-code_lines [] = omega arith
length-code_lines (line ∷ lines) = shorter (is_closing line) (length-code_lines lines)
  where
    shorter :
        (b : Bool)
        → length (code_lines lines).1 ≤ length lines
        → length
            (if◌then◌else◌ {A = List String × List String} b
              ([], lines)
              (line ∷ (code_lines lines).0, (code_lines lines).1)).1
          ≤ suc (length lines)
    shorter true h = omega arith
    shorter false h = omega (arith, h)

length-quote_lines : (lines : List String) → length (quote_lines lines).1 ≤ length lines
unfolding quote_lines
length-quote_lines [] = omega arith
length-quote_lines (line ∷ lines) = shorter (quoted line) (length-quote_lines lines)
  where
    shorter :
        (o : Option String)
        → length (quote_lines lines).1 ≤ length lines
        → length
            (elim o as (λ x. List String × List String) [
              | some s ↦ (s ∷ (quote_lines lines).0, (quote_lines lines).1)
              | none ↦ ([], line ∷ lines)
            ]).1
          ≤ suc (length lines)
    shorter none h = omega arith
    shorter (some s) h = omega (arith, h)

module _ (f g : List String → MarkdownNodes) (line : String) (lines : List String)
    (same_below : (rest : List String) → length rest ≤ length lines → f rest ≡ g rest) where
  plain_line-ext : plain_line f line lines ≡ plain_line g line lines
  plain_line-ext =
      ap (λ u. append (parse_inline line) (newline_if_more lines u))
        (same_below lines (omega arith))

  quote_or_plain-ext :
      (o : Option String) → quote_or_plain f line lines o ≡ quote_or_plain g line lines o
  quote_or_plain-ext none = plain_line-ext
  quote_or_plain-ext (some s) =
      let (quotes, rest) = quote_lines lines in
      ap (cons (blockquote (parse_inline (join_lines (s ∷ quotes)))))
        (same_below rest (length-quote_lines lines))

  heading_or-ext :
      (o : Option (Level × String)) → heading_or f line lines o ≡ heading_or g line lines o
  heading_or-ext none = quote_or_plain-ext (quoted line)
  heading_or-ext (some (level, s)) =
      ap (λ u. cons (heading level (parse_inline s)) (newline_if_more lines u))
        (same_below lines (omega arith))

  block_step-ext : (o : Option String) → block_step f line lines o ≡ block_step g line lines o
  block_step-ext none = heading_or-ext (match_heading line)
  block_step-ext (some language) =
      let (content, rest) = code_lines lines in
      ap (cons (code_block language (join_lines content)))
        (same_below rest (length-code_lines lines))

blocks_from-enough :
    (n m : ℕ) (lines : List String)
    → length lines ≤ n
    → length lines ≤ m
    → blocks_from n lines ≡ blocks_from m lines
unfolding blocks_from
blocks_from-enough zero zero lines h k = refl
blocks_from-enough zero (suc m) [] h k = refl
blocks_from-enough zero (suc m) (line ∷ lines) h k = absurd (omega (arith, h))
blocks_from-enough (suc n) zero [] h k = refl
blocks_from-enough (suc n) zero (line ∷ lines) h k = absurd (omega (arith, k))
blocks_from-enough (suc n) (suc m) [] h k = refl
blocks_from-enough (suc n) (suc m) (line ∷ lines) h k =
    block_step-ext (blocks_from n) (blocks_from m) line lines
      (λ rest e. blocks_from-enough n m rest (omega (arith, e, h)) (omega (arith, e, k)))
      (match_code_block line)

-- With the fuel that the model gives, the loop over the lines is the unbounded loop of the source: it
-- ends on every message, as each round takes a line at least.
pub blocks_loop-step :
    (line : String) (lines : List String)
    → blocks_loop (line ∷ lines) ≡ block_step blocks_loop line lines (match_code_block line)
unfolding blocks_from
blocks_loop-step line lines =
    block_step-ext (blocks_from (length lines)) blocks_loop line lines
      (λ rest e. blocks_from-enough (length lines) (length rest) rest e (omega arith))
      (match_code_block line)
