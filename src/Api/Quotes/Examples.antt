-- ===== src/Api/Quotes/Examples.antt =====
-- The theorems on quoted messages at concrete inputs.
use letterbox.Prelude.{◌≡◌, refl, codes}
use letterbox.Api.Quotes.{escape_html, quote_lines}
use letterbox.Api.Quotes.Escaping.{escape_bytes, escape_html-escape_bytes}

escape_html-escape_bytes_example : escape_html (codes "a<&amp;") ≡ escape_bytes (codes "a<&amp;")
escape_html-escape_bytes_example = escape_html-escape_bytes (codes "a<&amp;")

two_lines : quote_lines (codes "a\nb") ≡ codes "> a\n> b"
unfolding quote_lines
two_lines = refl
