-- ===== src/Delta/Escape.antt =====
-- `esc` of architecture-delta.mjs: texts in the attributes and the content of markup.
mod Tests
pub mod Unescaped
use salience.Base.{ℕ, Text, codes, List, [], ◌∷◌, ◌++◌, Bool, true, false, ◌==◌, if◌then◌else◌}
use salience.Json.{Value, undefined, null}
use salience.Json.Print.{to_text}

-- `text.replaceAll(c, replacement)`, of a single character.
unfoldable pub replace_all : ℕ → Text → Text → Text
replace_all c replacement [] = []
replace_all c replacement (d ∷ t) =
    let rest = replace_all c replacement t in if d == c then replacement ++ rest else d ∷ rest

-- The five replacements, in their order.
unfoldable pub escape : Text → Text
escape t = replace_all b'\'' (codes "&#39;") (
    replace_all b'"' (codes "&quot;") (
      replace_all b'>' (codes "&gt;")
        (replace_all b'<' (codes "&lt;") (replace_all b'&' (codes "&amp;") t))))

-- `String(value ?? '')`
abbrev pub shown : Value → Text
shown undefined = []
shown null = []
shown v = to_text v

-- `esc`
unfoldable pub esc : Value → Text
esc value = escape (shown value)
