-- ===== src/Markdown/Fuel.antt =====
-- shared/lib/parse-markdown.ts: the loop of `parseInline` ends.
use Prim.Native.Char.{Char}
use Prim.Native.String
use link_lynx_ai.Common.{ℕ, zero, suc, ◌≤◌, String, Option, none, some, ◌≡◌, refl, ap, arith}
use link_lynx_ai.Markdown.Nodes.{MarkdownNodes, cons, flush_text}
use link_lynx_ai.Markdown.Patterns.{Match, leaf, wrap, match_inline}
use link_lynx_ai.Markdown.Inline.{size, inline_step, inline_from, inline_loop, parse_inline}
use link_lynx_ai.Markdown.Consumption.{Shortens, match_inline-Shortens}

inline_step-ext :
    (f g : String → String → MarkdownNodes) (text_buf : String) (c : Char) (s : String)
    (o : Option Match)
    → Shortens (suc (size s)) o
    → ((b t : String) → size t ≤ size s → f b t ≡ g b t)
    → inline_step f text_buf c s o ≡ inline_step g text_buf c s o
inline_step-ext f g text_buf c s none h e =
    e (String.◌++◌ text_buf (String.◌∷◌ c "")) s (omega arith)
inline_step-ext f g text_buf c s (some (leaf node rest)) h e =
    ap (λ u. flush_text text_buf (cons node u)) (e "" rest (omega (arith, h)))
inline_step-ext f g text_buf c s (some (wrap span inside rest)) h e =
    rw (e "" inside (omega (arith, h.0)), e "" rest (omega (arith, h.1))) refl

inline_from-enough :
    (n m : ℕ) (text_buf s : String)
    → size s ≤ n
    → size s ≤ m
    → inline_from n text_buf s ≡ inline_from m text_buf s
unfolding inline_from
inline_from-enough zero zero text_buf s h k = refl
inline_from-enough zero (suc m) text_buf String.[] h k = refl
inline_from-enough zero (suc m) text_buf (String.◌∷◌ c s) h k = absurd (omega (arith, h))
inline_from-enough (suc n) zero text_buf String.[] h k = refl
inline_from-enough (suc n) zero text_buf (String.◌∷◌ c s) h k = absurd (omega (arith, k))
inline_from-enough (suc n) (suc m) text_buf String.[] h k = refl
inline_from-enough (suc n) (suc m) text_buf (String.◌∷◌ c s) h k =
    inline_step-ext (inline_from n) (inline_from m) text_buf c s (match_inline (String.◌∷◌ c s))
      (match_inline-Shortens (String.◌∷◌ c s))
      (λ b t e. inline_from-enough n m b t (omega (arith, e, h)) (omega (arith, e, k)))

-- With the fuel that the model gives, the loop is the unbounded loop of the source: at each character
-- it takes the first match, parses its inside and goes on behind it, or else keeps the character.
pub inline_loop-step :
    (text_buf : String) (c : Char) (s : String)
    → inline_loop text_buf (String.◌∷◌ c s)
      ≡ inline_step inline_loop text_buf c s (match_inline (String.◌∷◌ c s))
unfolding inline_from
inline_loop-step text_buf c s =
    inline_step-ext (inline_from (size s)) inline_loop text_buf c s (match_inline (String.◌∷◌ c s))
      (match_inline-Shortens (String.◌∷◌ c s))
      (λ b t e. inline_from-enough (size s) (size t) b t e (omega arith))

-- Any fuel from the length of the text on gives the same nodes, and so `parseInline` ends on every
-- text after at most as many rounds as it has characters.
pub parse_inline-enough : (n : ℕ) (s : String) → size s ≤ n → inline_from n "" s ≡ parse_inline s
unfolding parse_inline
parse_inline-enough n s h = inline_from-enough n (size s) "" s h (omega arith)
