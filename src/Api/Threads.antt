-- ===== src/Api/Threads.antt =====
-- Message identifiers in raw messages (internal/api/message_handler.go).
pub mod Identifiers
mod Examples
use letterbox.Prelude.{
  ℕ, suc, ◌+◌, Text, codes, text_eq, is_empty, Bool, true, false, ◌&&◌, ◌||◌, Option, none, some,
  List, [], ◌∷◌, ◌++◌, map, length, take, drop, all, ltb, leb, ◌==◌, if◌then◌else◌,
}

-- The loop of `parseMessageIDs`: `start` holds what was read since the last '<'.
unfoldable pub scan_ids : Option Text → Text → List Text
scan_ids start [] = []
scan_ids none (c ∷ s) =
    let inside = scan_ids (some (c ∷ [])) s in
    let outside = scan_ids none s in if c == b'<' then inside else outside
scan_ids (some read) (c ∷ s) =
    let again = scan_ids (some (c ∷ [])) s in
    let closed = scan_ids none s in
    let more = scan_ids (some (read ++ c ∷ [])) s in
    if c == b'<' then again else if c == b'>' then (read ++ c ∷ []) ∷ closed else more

unfoldable pub parse_message_ids : Text → List Text
unfolding scan_ids
parse_message_ids s = scan_ids none s

abbrev has_prefix : Text → Text → Bool
has_prefix prefix s = text_eq (take (length prefix) s) prefix

abbrev next_index : Option ℕ → Option ℕ
next_index none = none
next_index (some n) = some (suc n)

-- strings.Index, none being -1
unfoldable pub index_of : Text → Text → Option ℕ
index_of substr [] = if is_empty substr then some 0 else none
index_of substr (c ∷ s) =
    let rest = next_index (index_of substr s) in if has_prefix substr (c ∷ s) then some 0 else rest

abbrev from_start : ℕ → Option ℕ → Option ℕ
from_start start none = none
from_start start (some idx) = some (start + idx)

unfoldable pub index_at : Text → Text → ℕ → Option ℕ
unfolding index_of
index_at s substr start =
    if leb (length s) start then none else from_start start (index_of substr (drop start s))

abbrev is_line_end : ℕ → Bool
is_line_end c = c == 13 || c == 10

unfoldable pub until_line_end : Text → Text
until_line_end [] = []
until_line_end (c ∷ s) = let rest = until_line_end s in if is_line_end c then [] else c ∷ rest

abbrev header_at : Text → Text → Option ℕ → Text → Text
header_at lines prefix none other = other
header_at lines prefix (some idx) other = until_line_end (drop (idx + length prefix) lines)

-- The loop over the prefixes.
unfoldable pub first_header : Text → List Text → Text
unfolding index_at until_line_end
first_header lines [] = []
first_header lines (prefix ∷ prefixes) =
    header_at lines prefix (index_at lines prefix 0) (first_header lines prefixes)

unfoldable pub extract_message_id : Text → Text
unfolding first_header
extract_message_id raw =
    first_header raw (codes "Message-Id: " ∷ codes "Message-ID: " ∷ codes "message-id: " ∷ [])

abbrev is_blank : ℕ → Bool
is_blank c = c == b' ' || c == 9

unfoldable pub skip_blanks : Text → Text
skip_blanks [] = []
skip_blanks (c ∷ s) = let rest = skip_blanks s in if is_blank c then rest else c ∷ s

-- The value of a header up to the line end that no blank follows.
unfoldable pub header_value : Text → Text
header_value [] = []
header_value (c ∷ []) = if is_line_end c then [] else c ∷ []
header_value (c ∷ d ∷ []) =
    let rest = header_value (d ∷ []) in
    if is_line_end c then (if is_blank d then c ∷ rest else []) else c ∷ rest
header_value (c ∷ d ∷ e ∷ s) =
    let rest = header_value (d ∷ e ∷ s) in
    let folded = header_value (e ∷ s) in
    if is_line_end c
    then (if d == 10
        then (if is_blank e then c ∷ d ∷ folded else [])
        else if is_blank d
        then c ∷ rest
        else [])
    else c ∷ rest

abbrev lower_byte : ℕ → ℕ
lower_byte c = if leb b'A' c && leb c b'Z' then c + 32 else c

-- strings.ToLower. `lower_runes` is what it does by the tables of Unicode, where a byte is not
-- ASCII; the length may change then.
module _ (lower_runes : Text → Text) where
  unfoldable pub to_lower : Text → Text
  to_lower s = if all (λ c. ltb c 128) s then map lower_byte s else lower_runes s

  abbrev references_from : Text → Option ℕ → List Text
  references_from raw none = []
  references_from raw (some idx) =
      parse_message_ids (header_value (skip_blanks (drop (idx + length (codes "references:")) raw)))

  unfoldable pub extract_references : Text → List Text
  unfolding to_lower index_of parse_message_ids header_value skip_blanks
  extract_references raw = references_from raw (index_of (codes "references:") (to_lower raw))
