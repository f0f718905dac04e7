-- ===== src/Api/Listing/Pages.antt =====
-- The limit of a page (parsePaginationParams in internal/api/response.go).
use letterbox.Prelude.{ℕ, ◌≤◌, ◌≡◌, Text, Option, none, some, [], ◌∷◌, arith}
use letterbox.Prelude.Int.{ℤ, pos, negsuc}
use letterbox.Api.Listing.{
  ListQuery, atoi, checked_limit, parse_limit, parse_offset, both, parse_pagination_params,
}

limit-bounds :
    (o : Option ℤ) (limit : ℕ) → checked_limit o ≡ some limit → (1 ≤ limit) × (limit ≤ 100)
limit-bounds none limit e = absurd (cc (e))
limit-bounds (some (negsuc n)) limit e = absurd (cc (e))
limit-bounds (some (pos n)) limit e = ground (arith, e)

parse_limit-bounds :
    (s : Text) (limit : ℕ) → parse_limit s ≡ some limit → (1 ≤ limit) × (limit ≤ 100)
unfolding parse_limit
parse_limit-bounds [] limit e = ground (arith, e)
parse_limit-bounds (c ∷ s) limit e = limit-bounds (atoi (c ∷ s)) limit e

-- Whatever a client asks for, a page that is accepted has a limit from 1 to 100.
pub parse_pagination_params-bounds :
    (q : ListQuery) (limit offset : ℕ)
    → parse_pagination_params q ≡ some (limit, offset)
    → (1 ≤ limit) × (limit ≤ 100)
unfolding parse_pagination_params
parse_pagination_params-bounds q limit offset e =
    parse_limit-bounds q.limit limit (first_of (parse_limit q.limit) (parse_offset q.offset) e)
  where
    first_of : (a b : Option ℕ) → both a b ≡ some (limit, offset) → a ≡ some limit
    first_of none b e = absurd (cc (e))
    first_of (some a) none e = absurd (cc (e))
    first_of (some a) (some b) e = cc (e)
