-- ===== src/Conversations/Messages.antt =====
-- conversations/validate.go: what is sent is trimmed and checked before it is stored. `url.Parse` is an
-- argument: the scheme, in lower case, and whether there is a host or an opaque part.
pub mod Buttons
pub mod Accepted
pub mod Choices
mod Examples
use cuckoo.Base.{
  ℕ, Bool, true, false, ◌&&◌, ◌||◌, not, Option, none, some, List, [], ◌∷◌, ◌==◌, ltb, leb,
  if◌then◌else◌, length,
}
use cuckoo.Base.Text.{
  Text, codes, text_eq, contains, byte_len, is_valid, trim_space, contains_any, contains_rune,
}
use cuckoo.Domain.Errors.{Error, Result, ok, err, invalid_field, ◌>>=◌, ◌>>◌, refuse_if}

abbrev pub text_max_len : ℕ
text_max_len = 8000

abbrev pub idempotency_key_max_len : ℕ
idempotency_key_max_len = 200

abbrev pub quick_replies_max : ℕ
quick_replies_max = 6

abbrev pub label_max_len : ℕ
label_max_len = 40

abbrev pub invalid_text : Error
invalid_text = invalid_field "text" "invalid_text"

unfoldable pub validate_text : Text → Result Text
validate_text raw =
    let text = trim_space raw in
    do
      refuse_if (not (is_valid text)) invalid_text
      refuse_if (contains_rune 0 text) invalid_text
      refuse_if (length text == 0) invalid_text
      refuse_if (ltb text_max_len (length text)) invalid_text
      ok text

-- Words may be missing where there are files.
unfoldable pub validate_caption : Text → Bool → Result Text
unfolding validate_text
validate_caption raw has_attachments =
    if has_attachments && text_eq (trim_space raw) [] then ok [] else validate_text raw

-- `none` is no key, which the column keeps as null.
unfoldable pub validate_idempotency_key : Text → Result (Option Text)
validate_idempotency_key raw =
    let key = trim_space raw in
    if text_eq key []
    then ok none
    else if not (is_valid key) || contains_rune 0 key || ltb idempotency_key_max_len (length key)
    then err (invalid_field "idempotency_key" "invalid_idempotency_key")
    else ok (some key)

-- A label, with the error of the field that it is in.
pub validate_label : Error → Text → Result Text
validate_label bad raw =
    let label = trim_space raw in
    do
      refuse_if (not (is_valid label) || contains_any (0 ∷ codes "\n\r\t") label) bad
      refuse_if (ltb (length label) 1 || ltb label_max_len (length label)) bad
      ok label

abbrev pub invalid_quick_replies : Error
invalid_quick_replies = invalid_field "quick_replies" "invalid_quick_replies"

validate_labels : List Text → Result (List Text)
unfolding validate_label
validate_labels [] = ok []
validate_labels (q ∷ qs) =
    let rest = validate_labels qs in
    validate_label invalid_quick_replies q >>= λ label. rest >>= λ labels. ok (label ∷ labels)

-- A quick reply is its label.
unfoldable pub validate_quick_replies : List Text → Result (List Text)
unfolding validate_labels
validate_quick_replies qs =
    if ltb quick_replies_max (length qs) then err invalid_quick_replies else validate_labels qs
