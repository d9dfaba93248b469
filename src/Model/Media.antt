-- ===== src/Model/Media.antt =====
-- Media metadata (internal/model/media.go). A `MediaKind` is a `uint8`, whose zero value means that
-- there is no media.
pub mod Bounds
use walite.Base.{
  ℕ, zero, suc, ◌==◌, Bool, true, false, ◌&&◌, ◌||◌, List, [], ◌∷◌, ◌++◌, Bytes, bytes_eq, ltb, leb,
  not, Result, ok, err, ◌>>=◌, ◌>>◌, reject_if, length, drop, if◌then◌else◌,
}
use walite.Model.Error.{Validated, too_long, invalid_value, new_validation_error}
use walite.Model.Utf8.{valid_string, runes, is_control, decode_rune}
use walite.Model.Normalize.{output, normalize_bounded_utf8}
use walite.Model.Identifier.{is_empty}

abbrev pub max_media_name_bytes : ℕ
max_media_name_bytes = 512

abbrev pub max_media_mime_bytes : ℕ
max_media_mime_bytes = 256

abbrev pub max_media_direct_path_bytes : ℕ
max_media_direct_path_bytes = 3072

abbrev pub max_media_key_bytes : ℕ
max_media_key_bytes = 64

abbrev pub max_media_hash_bytes : ℕ
max_media_hash_bytes = 64

pub record Media : Type 0 where
  pub kind : ℕ
  pub name : Bytes
  pub mime_type : Bytes
  pub direct_path : Bytes
  pub media_key : Bytes
  pub file_sha256 : Bytes
  pub file_enc_sha256 : Bytes
  pub declared_bytes : ℕ

abbrev pub no_media : Media
no_media = record {
  kind = 0;
  name = [];
  mime_type = [];
  direct_path = [];
  media_key = [];
  file_sha256 = [];
  file_enc_sha256 = [];
  declared_bytes = 0;
}

-- `media == (Media{})`
unfoldable pub is_no_media : Media → Bool
is_no_media m =
    m.kind == 0
    && (is_empty m.name
        && (is_empty m.mime_type
            && (is_empty m.direct_path
                && (is_empty m.media_key
                    && (is_empty m.file_sha256
                        && (is_empty m.file_enc_sha256 && m.declared_bytes == 0))))))

-- `MediaImage` is 1 and `MediaSticker` 5.
unfoldable pub valid_media_kind : ℕ → Bool
valid_media_kind kind = leb 1 kind && leb kind 5

-- `strings.Map` with a blank for each control rune; it writes U+FFFD for a byte outside a rune.
unfoldable pub blank_controls : ℕ → Bytes → Bytes
blank_controls fuel [] = []
blank_controls zero (b ∷ s) = []
blank_controls (suc fuel) (b ∷ s) =
    (if is_control (decode_rune (b ∷ s)).0 then 0x20 ∷ [] else output (b ∷ s))
    ++ blank_controls fuel (drop (decode_rune (b ∷ s)).1 (b ∷ s))

unfoldable pub normalize_media_field : Bytes → ℕ → Bytes
normalize_media_field value limit =
    let bounded = (normalize_bounded_utf8 value limit).0 in blank_controls (length bounded) bounded

unfoldable pub new_media : ℕ → Bytes → Bytes → Validated Media
new_media kind name mime_type = do
  reject_if (not (valid_media_kind kind)) (new_validation_error invalid_value "media_kind" 0)
  ok (record no_media {
    kind = kind;
    name = normalize_media_field name max_media_name_bytes;
    mime_type = normalize_media_field mime_type max_media_mime_bytes;
  })

unfoldable pub any_control : List ℕ → Bool
any_control [] = false
any_control (r ∷ rs) = is_control r || any_control rs

-- `path[0] != '/'`, which stands behind the test for the empty path.
abbrev pub starts_with_slash : Bytes → Bool
starts_with_slash [] = false
starts_with_slash (b ∷ s) = b == 0x2F

abbrev pub is_hash : ℕ → Bytes → Bool
is_hash limit key = not (is_empty key) && leb (length key) limit

unfoldable pub valid_download_metadata : Bytes → Bytes → Bytes → Bytes → Bool
valid_download_metadata path key hash enc_hash =
    (starts_with_slash path
      && (leb (length path) max_media_direct_path_bytes
          && (valid_string path
              && (is_hash max_media_key_bytes key
                  && (is_hash max_media_hash_bytes hash
                      && is_hash max_media_hash_bytes enc_hash)))))
    && not (any_control (runes path))

unfoldable pub new_downloadable_media :
    ℕ → Bytes → Bytes → Bytes → Bytes → Bytes → Bytes → ℕ → Validated Media
new_downloadable_media kind name mime_type direct_path media_key sha256 enc_sha256 declared = do
  media ← new_media kind name mime_type
  reject_if (not (valid_download_metadata direct_path media_key sha256 enc_sha256))
      (new_validation_error invalid_value "media_download" 0)
  ok (record media {
    direct_path = direct_path;
    media_key = media_key;
    file_sha256 = sha256;
    file_enc_sha256 = enc_sha256;
    declared_bytes = declared;
  })

-- `Media.Download`: the download inputs exist where there is a path.
unfoldable pub has_download : Media → Bool
has_download m = not (is_empty m.direct_path)

-- `validateMedia` behind its test for the zero value.
unfoldable pub validate_some_media : Media → Validated (Unit {0})
validate_some_media m = do
  reject_if (not (valid_media_kind m.kind)) (new_validation_error invalid_value "media_kind" 0)
  reject_if (ltb max_media_name_bytes (length m.name))
      (new_validation_error too_long "media_name" max_media_name_bytes)
  reject_if (ltb max_media_mime_bytes (length m.mime_type))
      (new_validation_error too_long "media_mime_type" max_media_mime_bytes)
  reject_if
      (has_download m
        && not (valid_download_metadata m.direct_path m.media_key m.file_sha256 m.file_enc_sha256))
      (new_validation_error invalid_value "media_download" 0)
  reject_if
      (is_empty m.direct_path
        && not (
            is_empty m.media_key
            && (is_empty m.file_sha256 && (is_empty m.file_enc_sha256 && m.declared_bytes == 0))))
      (new_validation_error invalid_value "media_download" 0)

unfoldable pub validate_media : Media → Validated (Unit {0})
validate_media m = if is_no_media m then ok tt else validate_some_media m

-- The copy has the value's fields.
unfoldable pub clone_media : Media → Validated Media
clone_media m = do validate_media m; ok m
