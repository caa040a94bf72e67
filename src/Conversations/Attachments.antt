-- ===== src/Conversations/Attachments.antt =====
-- conversations/attachments.go, over the table media: the files that a message carries.
use cuckoo.Base.{
  ℕ, Bool, true, false, ◌&&◌, ◌||◌, not, Option, none, some, List, [], ◌∷◌, ◌==◌, ltb, is_none,
  is_some, if◌then◌else◌, length, find?, update, count,
}
use cuckoo.Base.Keys.{is_in}
use cuckoo.Base.Text.{Text}
use cuckoo.Domain.Errors.{Error, Result, ok, err, invalid_field, ◌>>=◌, ◌>>◌, refuse_if}
use cuckoo.Conversations.Membership.{ParticipantKind, user, agent}

abbrev pub attachments_max : ℕ
attachments_max = 10

-- Who wrote a message.
pub record Sender : Type 0 where
  pub kind : ParticipantKind
  pub id : ℕ

pub record Medium : Type 0 where
  pub id : ℕ
  pub owner_kind : ParticipantKind
  pub owner_id : ℕ
  pub kind : Text
  pub mime_type : Text
  pub byte_size : ℕ
  pub file_name : Text
  pub width : ℕ
  pub height : ℕ
  pub storage_key : Text
  pub thumb_key : Option Text
  pub message_id : Option ℕ
  pub created_at : ℕ
  pub duration_ms : ℕ
  pub waveform : List ℕ

pub record Attachment : Type 0 where
  pub media_id : ℕ
  pub kind : Text
  pub mime_type : Text
  pub byte_size : ℕ
  pub file_name : Text
  pub width : ℕ
  pub height : ℕ
  pub has_thumbnail : Bool
  pub duration_ms : ℕ
  pub waveform : List ℕ

abbrev pub same_kind : ParticipantKind → ParticipantKind → Bool
same_kind user user = true
same_kind agent agent = true
same_kind _ _ = false

-- row.OwnerKind == sender.Kind && row.OwnerID == sender.ID
abbrev pub is_owned_by : Sender → Medium → Bool
is_owned_by sender m = same_kind m.owner_kind sender.kind && m.owner_id == sender.id

-- A file stands twice in the list.
abbrev pub has_twice : List ℕ → Bool
has_twice [] = false
has_twice (i ∷ ids) = is_in i ids || has_twice ids

abbrev pub unknown_attachment : Error
unknown_attachment = invalid_field "attachments" "unknown_attachment"

abbrev pub already_sent : Error
already_sent = invalid_field "attachments" "attachment_already_sent"

abbrev pub attachment_of : Medium → Attachment
attachment_of m = record {
  media_id = m.id;
  kind = m.kind;
  mime_type = m.mime_type;
  byte_size = m.byte_size;
  file_name = m.file_name;
  width = m.width;
  height = m.height;
  has_thumbnail = is_some m.thumb_key;
  duration_ms = m.duration_ms;
  waveform = m.waveform;
}

unfoldable pub attach : Sender → Option Medium → Result Attachment
attach sender none = err unknown_attachment
attach sender (some m) =
    refuse_if (not (is_owned_by sender m)) unknown_attachment
    >> (refuse_if (is_some m.message_id) already_sent >> ok (attachment_of m))

unfoldable pub attach_all : Sender → List Medium → List ℕ → Result (List Attachment)
unfolding attach
attach_all sender media [] = ok []
attach_all sender media (i ∷ ids) = attach sender (find? (λ m. m.id == i) media) >>= λ one.
    attach_all sender media ids >>= λ rest. ok (one ∷ rest)

unfoldable pub resolve_attachments : Sender → List Medium → List ℕ → Result (List Attachment)
unfolding attach_all
resolve_attachments sender media ids =
    refuse_if (ltb attachments_max (length ids))
      (invalid_field "attachments" "too_many_attachments")
    >> (refuse_if (has_twice ids) (invalid_field "attachments" "invalid_attachment")
        >> attach_all sender media ids)

-- id = ANY($2) AND message_id IS NULL AND owner_kind = $3 AND owner_id = $4
abbrev pub is_claimable : Sender → List ℕ → Medium → Bool
is_claimable sender ids m = is_in m.id ids && is_none m.message_id && is_owned_by sender m

abbrev pub hang_on : ℕ → Medium → Medium
hang_on message m = record m { message_id = some message }

-- `claimAttachments`: the rows after.
unfoldable pub claim_attachments : Sender → ℕ → List ℕ → List Medium → Result (List Medium)
claim_attachments sender message [] media = ok media
claim_attachments sender message (i ∷ ids) media =
    if count (is_claimable sender (i ∷ ids)) media == length (i ∷ ids)
    then ok (update (is_claimable sender (i ∷ ids)) (hang_on message) media)
    else err unknown_attachment
