-- ===== src/Api/Quotes.antt =====
-- Quoted messages in replies and forwards (internal/api/message_handler.go).
pub mod Escaping
pub mod Lines
mod Examples
use letterbox.Prelude.{
  ℕ, Text, codes, is_empty, Bool, true, false, ◌&&◌, List, [], ◌∷◌, ◌++◌, map, ltb, length, ◌==◌,
  if◌then◌else◌,
}
use letterbox.Domain.{EmailAddress, Email}

-- strings.ReplaceAll of one byte
unfoldable pub replace_all : ℕ → Text → Text → Text
replace_all c by [] = []
replace_all c by (d ∷ s) = (if d == c then by else d ∷ []) ++ replace_all c by s

unfoldable pub escape_html : Text → Text
unfolding replace_all
escape_html s = replace_all b'"' (codes "&quot;") (
    replace_all b'>' (codes "&gt;")
      (replace_all b'<' (codes "&lt;") (replace_all b'&' (codes "&amp;") s)))

abbrev add_first : ℕ → List Text → List Text
add_first c [] = (c ∷ []) ∷ []
add_first c (line ∷ lines) = (c ∷ line) ∷ lines

-- strings.Split(s, "\n"): one line more than there are line ends
unfoldable pub split_lines : Text → List Text
split_lines [] = [] ∷ []
split_lines (c ∷ s) = let rest = split_lines s in if c == 10 then [] ∷ rest else add_first c rest

-- strings.Join
unfoldable pub join_with : Text → List Text → Text
join_with sep [] = []
join_with sep (s ∷ []) = s
join_with sep (s ∷ t ∷ ss) = s ++ (sep ++ join_with sep (t ∷ ss))

abbrev pub quote_line : Text → Text
quote_line line = codes "> " ++ line

unfoldable pub quote_lines : Text → Text
unfolding split_lines join_with
quote_lines text = join_with (codes "\n") (map quote_line (split_lines text))

unfoldable pub format_address : Text → Text → Text
format_address name email =
    if is_empty name then email else name ++ (codes " <" ++ (email ++ codes ">"))

unfoldable pub format_address_list : List EmailAddress → Text
unfolding format_address join_with
format_address_list addrs =
    join_with (codes ", ") (map (λ (a : EmailAddress). format_address a.name a.email) addrs)

-- time.Time.Format
module _ (format : Text → ℕ → Text) where
  unfoldable pub format_attribution : Text → Text → ℕ → Text
  unfolding format_address
  format_attribution name email date =
      codes "On "
      ++ (format (codes "Mon, 2 Jan 2006 at 15:04") date
          ++ (codes ", " ++ (format_address name email ++ codes " wrote:")))

  unfoldable pub quote_text_body : Text → Text → Text → ℕ → Text
  unfolding format_attribution quote_lines
  quote_text_body text name email date =
      if is_empty text
      then []
      else codes "\n\n" ++ (format_attribution name email date ++ (codes "\n" ++ quote_lines text))

  unfoldable pub quote_html_body : Text → Text → Text → ℕ → Text
  unfolding format_attribution escape_html
  quote_html_body html name email date =
      if is_empty html
      then []
      else codes "<br><br><div class=\"quote\">"
        ++ (escape_html (format_attribution name email date)
            ++ (codes
                  "<blockquote style=\"margin:0 0 0 0.8ex;border-left:1px solid #ccc;padding-left:1ex\">"
                ++ (html ++ codes "</blockquote></div>")))

  abbrev long_date : ℕ → Text
  long_date date = format (codes "Mon, 2 Jan 2006 15:04:05 -0700") date

  unfoldable pub quote_forward_text_body : Email → Text
  unfolding format_address format_address_list
  quote_forward_text_body original =
      if is_empty original.parsed_text && is_empty original.parsed_html
      then []
      else codes "\n\n---------- Forwarded message ----------\n"
        ++ (codes "From: "
            ++ (format_address original.from_name original.from_email
                ++ (codes "\nDate: "
                    ++ (long_date original.date
                        ++ (codes "\nSubject: "
                            ++ (original.subject
                                ++ (codes "\n"
                                    ++ ((if ltb 0 (length original.to)
                                          then codes "To: "
                                            ++ (format_address_list original.to ++ codes "\n")
                                          else [])
                                        ++ (codes "\n" ++ original.parsed_text)))))))))

  abbrev forward_rule : Text
  forward_rule =
      codes "<div style=\"border-bottom:1px solid #ccc;padding-bottom:10px;margin-bottom:10px\">"

  unfoldable pub quote_forward_html_body : Email → Text
  unfolding format_address format_address_list escape_html
  quote_forward_html_body original =
      if is_empty original.parsed_html && is_empty original.parsed_text
      then []
      else codes "<br><br><div class=\"forward\">"
        ++ (forward_rule
            ++ (codes "<b>---------- Forwarded message ----------</b><br><b>From:</b> "
                ++ (escape_html (format_address original.from_name original.from_email)
                    ++ (codes "<br><b>Date:</b> "
                        ++ (long_date original.date
                            ++ (codes "<br><b>Subject:</b> "
                                ++ (escape_html original.subject
                                    ++ (codes "<br>"
                                        ++ ((if ltb 0 (length original.to)
                                              then codes "<b>To:</b> "
                                                ++ (escape_html (format_address_list original.to)
                                                    ++ codes "<br>")
                                              else [])
                                            ++ (codes "</div>"
                                                ++ ((if is_empty original.parsed_html
                                                      then codes "<pre>"
                                                        ++ (escape_html original.parsed_text
                                                            ++ codes "</pre>")
                                                      else original.parsed_html)
                                                    ++ codes "</div>")))))))))))
