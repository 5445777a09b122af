-- ===== src/Model/Media.antt =====
-- Attachments: apps/im-server/src/modules/media/persistence/entities/attachment.entity.ts.
-- The column `metadata` is left out.
use slowchat.Base.{ℕ, Bool, true, false, Option}
use Prim.Native.String.{String}
use slowchat.Model.Identity.{Uuid, Time, Digest, Text}

pub data AttachmentKind : Type 0 where
  image file : AttachmentKind

pub data AttachmentStatus : Type 0 where
  uploading uploaded processing ready failed quarantined deleted : AttachmentStatus

pub record Attachment : Type 0 where
  pub id : Uuid
  pub owner_id : Uuid
  pub kind : AttachmentKind
  pub object_key : String
  pub file_name : Text
  pub content_type : Text
  pub size_bytes : ℕ
  pub checksum_sha256 : Option Digest
  pub status : AttachmentStatus
  pub ready_at : Option Time
  pub expires_at : Option Time
  pub failure_reason : Option String

abbrev pub is_ready : AttachmentStatus → Bool
is_ready AttachmentStatus.ready = true
is_ready _ = false

abbrev pub is_quarantined : AttachmentStatus → Bool
is_quarantined AttachmentStatus.quarantined = true
is_quarantined _ = false
