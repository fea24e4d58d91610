-- ===== src/Markdown/Nodes.antt =====
-- shared/lib/parse-markdown.ts: `MarkdownNode`.
use link_lynx_ai.Common.{String, if◌then◌else◌, is_empty}

pub data Level : Type 0 where
  one two three : Level

mutual
  pub data MarkdownNode : Type 0 where
    text : String → MarkdownNode
    bold italic underline strikethrough : MarkdownNodes → MarkdownNode
    inline_code : String → MarkdownNode
    code_block : String → String → MarkdownNode
    blockquote spoiler : MarkdownNodes → MarkdownNode
    heading : Level → MarkdownNodes → MarkdownNode
    link : String → MarkdownNodes → MarkdownNode
    user_mention channel_mention : String → MarkdownNode
    everyone_mention here_mention newline : MarkdownNode

  pub data MarkdownNodes : Type 0 where
    nil : MarkdownNodes
    cons : MarkdownNode → MarkdownNodes → MarkdownNodes

abbrev pub append : MarkdownNodes → MarkdownNodes → MarkdownNodes
append nil ys = ys
append (cons x xs) ys = cons x (append xs ys)

-- `flushText` in front of what follows.
abbrev pub flush_text : String → MarkdownNodes → MarkdownNodes
flush_text text_buf rest = if is_empty text_buf then rest else cons (text text_buf) rest
