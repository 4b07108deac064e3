-- ===== src/Delta/Escape/Tests.antt =====
-- A text with characters of markup.
use salience.Base.{◌≡◌, refl, codes, true, arith}
use salience.Json.{Value, string}
use salience.Delta.Escape.{esc}
use salience.Delta.Escape.Unescaped.{all_inert, read_text, read_text-esc}

abbrev label : Value
label = string (codes "<a&b>")

esc_run : esc label ≡ codes "&lt;a&amp;b&gt;"
unfolding esc salience.Delta.Escape.escape salience.Delta.Escape.replace_all
    salience.Json.Print.to_text
esc_run = refl

read_text-esc_example :
    (all_inert (esc label) ≡ true) × (read_text 5 (esc label) ≡ salience.Delta.Escape.shown label)
unfolding salience.Json.Print.to_text
read_text-esc_example = read_text-esc 5 label (omega arith)
