-- ===== src/Composer.antt =====
-- The composer of outgoing messages (internal/composer/composer.go). The library that encodes a
-- message is a parameter, which sees the calls of its builder.
pub mod MessageIds
pub mod Validity
pub mod Building
mod Examples
use letterbox.Prelude.{
  ℕ, zero, suc, ◌+◌, ◌-◌, Text, codes, is_empty, Bool, true, false, ◌&&◌, ◌||◌, not, Option, none,
  some, List, [], ◌∷◌, ◌++◌, map, length, take, drop, all, ltb, ◌==◌, if◌then◌else◌,
}
use letterbox.Domain.{EmailAddress}

pub record Attachment : Type 0 where
  pub filename : Text
  pub content_type : Text
  pub content : Text
  pub is_inline : Bool
  pub content_id : Text

pub record ComposeEmail : Type 0 where
  pub sender : EmailAddress
  pub to : List EmailAddress
  pub cc : List EmailAddress
  pub bcc : List EmailAddress
  pub subject : Text
  pub text : Text
  pub html : Text
  pub attachments : List Attachment
  pub in_reply_to : Text
  pub references : List Text

pub data Field : Type 0 where
  from_field to_field cc_field bcc_field in_reply_to_field references_field : Field

pub data ComposeError : Type 0 where
  no_recipients no_from no_subject no_body invalid_subject missing_content_id : ComposeError
  invalid_email invalid_message_id : Field → Text → ComposeError

-- strings.ContainsAny(s, "\r\n")
unfoldable pub has_line_break : Text → Bool
has_line_break [] = false
has_line_break (c ∷ s) = c == 13 || c == 10 || has_line_break s

-- strings.Index(s, c) for one byte; the length stands for -1.
unfoldable pub index : ℕ → Text → ℕ
index c [] = 0
index c (d ∷ s) = let rest = index c s in if d == c then 0 else suc rest

abbrev ends_with : ℕ → Text → Bool
ends_with c [] = false
ends_with c (d ∷ []) = d == c
ends_with c (d ∷ e ∷ s) = ends_with c (e ∷ s)

abbrev starts_with : ℕ → Text → Bool
starts_with c [] = false
starts_with c (d ∷ s) = d == c

-- id[1 : len(id)-1]
abbrev inner : Text → Text
inner id = take (length id - 2) (drop 1 id)

unfoldable pub is_valid_message_id : Text → Bool
unfolding index
is_valid_message_id id =
    if ltb (length id) 5
    then false
    else if not (starts_with b'<' id && ends_with b'>' id)
    then false
    else (ltb 0 (index b'@' (inner id)) && ltb (index b'@' (inner id) + 1) (length (inner id)))

-- The first error of the checks, in their order.
abbrev pub first_error : List (Option ComposeError) → Option ComposeError
first_error [] = none
first_error (some e ∷ checks) = some e
first_error (none ∷ checks) = first_error checks

abbrev pub fail_if : Bool → ComposeError → Option ComposeError
fail_if b e = if b then some e else none

unfoldable pub check_references : List Text → Option ComposeError
unfolding is_valid_message_id
check_references [] = none
check_references (ref ∷ refs) =
    let rest = check_references refs in
    if is_valid_message_id ref then rest else some (invalid_message_id references_field ref)

unfoldable pub check_attachments : List Attachment → Option ComposeError
check_attachments [] = none
check_attachments (att ∷ atts) =
    let rest = check_attachments atts in
    if att.is_inline && is_empty att.content_id then some missing_content_id else rest

-- mail.ParseAddress accepts the text.
module _ (parses : Text → Bool) where
  unfoldable pub check_addresses : Field → List EmailAddress → Option ComposeError
  check_addresses field [] = none
  check_addresses field (addr ∷ addrs) =
      let rest = check_addresses field addrs in
      if parses addr.email then rest else some (invalid_email field addr.email)

  unfoldable pub checks : ComposeEmail → List (Option ComposeError)
  unfolding check_addresses check_references check_attachments has_line_break is_valid_message_id
  checks e =
      fail_if (is_empty e.sender.email) no_from
      ∷ fail_if (not (parses e.sender.email)) (invalid_email from_field e.sender.email)
      ∷ fail_if (length e.to == 0 && (length e.cc == 0 && length e.bcc == 0)) no_recipients
      ∷ check_addresses to_field e.to
      ∷ check_addresses cc_field e.cc
      ∷ check_addresses bcc_field e.bcc
      ∷ fail_if (is_empty e.subject) no_subject
      ∷ fail_if (has_line_break e.subject) invalid_subject
      ∷ fail_if (is_empty e.text && is_empty e.html) no_body
      ∷ fail_if (not (is_empty e.in_reply_to) && not (is_valid_message_id e.in_reply_to))
          (invalid_message_id in_reply_to_field e.in_reply_to)
      ∷ check_references e.references
      ∷ check_attachments e.attachments
      ∷ []

  -- The error of `Validate`, nil being `none`.
  unfoldable pub validate : ComposeEmail → Option ComposeError
  unfolding checks
  validate e = first_error (checks e)

abbrev pub emails_of : List EmailAddress → List Text
emails_of = map (λ (addr : EmailAddress). addr.email)

unfoldable pub all_recipients : ComposeEmail → List Text
all_recipients e = emails_of e.to ++ (emails_of e.cc ++ emails_of e.bcc)

-- The calls of the message builder.
pub data Call : Type 0 where
  from to cc bcc : Text → Text → Call
  subject text html : Text → Call
  date : ℕ → Call
  header : Text → Text → Call
  add_inline : Text → Text → Text → Text → Call
  add_attachment : Text → Text → Text → Call

abbrev pub calls_if : Bool → Call → List Call
calls_if b call = if b then call ∷ [] else []

abbrev pub attach : Attachment → Call
attach att =
    if att.is_inline
    then add_inline att.content att.content_type att.filename att.content_id
    else add_attachment att.content att.content_type att.filename

-- strings.Join(references, " ")
unfoldable pub join : List Text → Text
join [] = []
join (s ∷ []) = s
join (s ∷ t ∷ ss) = s ++ b' ' ∷ join (t ∷ ss)

-- The headers of a reply, and the attachments.
abbrev pub threading_calls : ComposeEmail → List Call
threading_calls e =
    calls_if (not (is_empty e.in_reply_to)) (header (codes "In-Reply-To") e.in_reply_to)
    ++ (calls_if (ltb 0 (length e.references)) (header (codes "References") (join e.references))
        ++ map attach e.attachments)

abbrev pub body_calls : ComposeEmail → List Call
body_calls e =
    calls_if (not (is_empty e.text)) (text e.text)
    ++ (calls_if (not (is_empty e.html)) (html e.html) ++ threading_calls e)

unfoldable pub builder_calls : Text → ℕ → ComposeEmail → List Call
unfolding join
builder_calls uuid now e =
    from e.sender.name e.sender.email
    ∷ subject e.subject
    ∷ date now
    ∷ header (codes "Message-Id") (codes "<" ++ (uuid ++ codes "@letterbox>"))
    ∷ (map (λ (a : EmailAddress). to a.name a.email) e.to
        ++ (map (λ (a : EmailAddress). cc a.name a.email) e.cc
            ++ (map (λ (a : EmailAddress). bcc a.name a.email) e.bcc ++ body_calls e)))

pub data Built : Type 0 where
  raw : Text → Built
  invalid : ComposeError → Built
  encoding_failed : Built

abbrev pub encoded : Option Text → Built
encoded none = encoding_failed
encoded (some bytes) = raw bytes

-- The builder's Build and Encode, none being an error
module _ (parses : Text → Bool) (encode : List Call → Option Text) where
  abbrev pub unless_invalid : Option ComposeError → Text → ℕ → ComposeEmail → Built
  unless_invalid (some err) uuid now e = invalid err
  unless_invalid none uuid now e = encoded (encode (builder_calls uuid now e))

  unfoldable pub build : Text → ℕ → ComposeEmail → Built
  unfolding validate builder_calls
  build uuid now e = unless_invalid (validate parses e) uuid now e
