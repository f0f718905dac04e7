-- ===== src/Api/Subjects/Examples.antt =====
-- The theorem on subjects at a concrete input, and a test.
use letterbox.Prelude.{◌≡◌, ◌≢◌, refl, codes, []}
use letterbox.Api.Subjects.{build_reply_subject, trim_space, is_space}

not_blank : trim_space (codes " Hi") ≢ []
unfolding trim_space is_space
not_blank e = cc

blank : build_reply_subject (λ c. c) (build_reply_subject (λ c. c) []) ≡ codes "Re:"
unfolding build_reply_subject is_space
blank = refl
