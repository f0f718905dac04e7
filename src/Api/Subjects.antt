-- ===== src/Api/Subjects.antt =====
-- The subjects of replies and forwards (internal/api/message_handler.go). A text is the list of its
-- runes here, since TrimSpace and ToLower read runes.
pub mod Repeats
mod Examples
use letterbox.Prelude.{
  ℕ, ◌+◌, Text, codes, text_eq, is_empty, Bool, true, false, ◌&&◌, ◌||◌, List, [], ◌∷◌, ◌++◌, map,
  take, ltb, leb, ◌==◌, if◌then◌else◌,
}

-- unicode.IsSpace
unfoldable pub is_space : ℕ → Bool
is_space c =
    leb 9 c && leb c 13
    || (c == 32
        || (c == 133
            || (c == 160
                || (c == 5760
                    || (leb 8192 c && leb c 8202
                        || (c == 8232
                            || (c == 8233 || (c == 8239 || (c == 8287 || c == 12288)))))))))

unfoldable pub trim_left : Text → Text
trim_left [] = []
trim_left (c ∷ s) = let rest = trim_left s in if is_space c then rest else c ∷ s

unfoldable pub trim_right : Text → Text
trim_right [] = []
trim_right (c ∷ s) = let rest = trim_right s in if is_empty rest && is_space c then [] else c ∷ rest

-- strings.TrimSpace
unfoldable pub trim_space : Text → Text
unfolding trim_left trim_right
trim_space s = trim_right (trim_left s)

-- unicode.ToLower of a rune beyond ASCII
module _ (lower_other : ℕ → ℕ) where
  unfoldable pub lower_rune : ℕ → ℕ
  lower_rune c =
      if ltb c 128 then (if leb b'A' c && leb c b'Z' then c + 32 else c) else lower_other c

  -- strings.ToLower
  abbrev pub to_lower : Text → Text
  to_lower = map lower_rune

  unfoldable pub build_reply_subject : Text → Text
  unfolding trim_space lower_rune
  build_reply_subject subject =
      if text_eq (take 3 (to_lower (trim_space subject))) (codes "re:")
      then trim_space subject
      else codes "Re: " ++ trim_space subject

  unfoldable pub build_forward_subject : Text → Text
  unfolding trim_space lower_rune
  build_forward_subject subject =
      if text_eq (take 4 (to_lower (trim_space subject))) (codes "fwd:")
        || text_eq (take 3 (to_lower (trim_space subject))) (codes "fw:")
      then trim_space subject
      else codes "Fwd: " ++ trim_space subject
