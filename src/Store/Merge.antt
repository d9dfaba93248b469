-- ===== src/Store/Merge.antt =====
-- A message that the store has already seen (the branch `if exists` of `writeBatch` in
-- internal/store/memory.go): what the stored one keeps and the new one adds.
pub mod Keeps
use walite.Base.{
  ℕ, ◌==◌, Bool, true, false, ◌&&◌, ◌||◌, not, Bytes, Result, ok, err, if◌then◌else◌, eqb_ℤ,
}
use walite.Model.Error.{Validated}
use walite.Model.Time.{equal}
use walite.Model.Identifier.{is_empty}
use walite.Model.Media.{Media, no_media, new_media, new_downloadable_media, has_download}
use walite.Model.Quote.{is_no_quote}
use walite.Model.Message.{
  Message, with_quote, with_media, with_sender, with_notification_eligibility,
}

-- `merged, _ = …`
abbrev pub or_no_media : Validated Media → Media
or_no_media (ok m) = m
or_no_media (err e) = no_media

abbrev pub or_else : Bytes → Bytes → Bytes
or_else s t = if is_empty s then t else s

-- Both of one kind: the new names where there are some, and a download of either.
unfoldable pub merged_media : Media → Media → Media
merged_media prior media =
    let name = or_else media.name prior.name in
    let mime_type = or_else media.mime_type prior.mime_type in
    if has_download media
    then or_no_media (
        new_downloadable_media prior.kind name mime_type media.direct_path media.media_key
          media.file_sha256 media.file_enc_sha256 media.declared_bytes)
    else if has_download prior
    then or_no_media (
        new_downloadable_media prior.kind name mime_type prior.direct_path prior.media_key
          prior.file_sha256 prior.file_enc_sha256 prior.declared_bytes)
    else or_no_media (new_media prior.kind name mime_type)

unfoldable pub merge_media : Media → Message → Message
merge_media prior m =
    if prior.kind == 0
    then m
    else if not (m.media.kind == prior.kind)
    then with_media m prior
    else with_media m (merged_media prior m.media)

unfoldable pub keep_body_of : Message → Message → Message
keep_body_of prior m = if prior.body_retained && not m.body_retained then prior else m

unfoldable pub keep_quote_of : Message → Message → Message
keep_quote_of prior m = if is_no_quote prior.quote then m else with_quote m prior.quote

unfoldable pub keep_sender_of : Message → Message → Message
keep_sender_of prior m =
    with_sender m (if is_empty prior.sender_id.value then m.sender_id else prior.sender_id)
      (m.is_group || prior.is_group)

-- `!prior.SentAt().Equal(message.SentAt()) || prior.FromMe() != message.FromMe()`
unfoldable pub conflicts : Message → Message → Bool
conflicts prior m =
    not (equal prior.sent_at m.sent_at) || (if prior.from_me then not m.from_me else m.from_me)

unfoldable pub merge_message : Message → Message → Message
merge_message prior m = keep_sender_of prior (
    merge_media prior.media (
      keep_quote_of prior
        (keep_body_of prior (with_notification_eligibility m prior.notification_eligible))))
