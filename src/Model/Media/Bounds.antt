-- ===== src/Model/Media/Bounds.antt =====
-- The lengths of accepted media metadata.
use walite.Base.{
  ℕ, zero, suc, ◌≤◌, true, false, [], ◌∷◌, Bytes, ◌≡◌, refl, length, drop, arith, Bool-cases, inl,
  inr, length-append, ok, >>-eq-ok, ◌∙◌, not, ◌==◌, ◌&&◌, subst,
}
use walite.Model.Utf8.{decode_rune, is_broken, is_control, valid_from, valid_string}
use walite.Model.Utf8.Laws.{decode_rune-IsRune, length-drop}
use walite.Model.Normalize.{output, output_bytes, normalize_bounded_utf8}
use walite.Model.Normalize.Output.{output-length}
use walite.Model.Normalize.Results.{normalize_bounded_utf8-IsBoundedPrefix}
use walite.Model.Identifier.{is_empty}
use walite.Model.Media.{
  Media, no_media, blank_controls, normalize_media_field, validate_some_media, validate_media,
  clone_media, new_media, is_no_media, max_media_name_bytes, max_media_mime_bytes,
  max_media_direct_path_bytes, max_media_key_bytes, max_media_hash_bytes, valid_download_metadata,
  has_download,
}

-- A blank is no longer than the rune it stands for.
length-blank_controls :
    (f : ℕ) (s : Bytes)
    → length s ≤ f
    → valid_from f s ≡ true
    → length (blank_controls f s) ≤ length s
unfolding blank_controls valid_from
length-blank_controls f [] hf v = omega arith
length-blank_controls zero (b ∷ s) hf v = cc
length-blank_controls (suc f) (b ∷ s) hf v = elim (Bool-cases (is_broken (decode_rune (b ∷ s)))) [
  | inl bad ↦ absurd (ground arith)
  | inr good ↦
      let n : ℕ = (decode_rune (b ∷ s)).1 in
      let shorter = length-drop n (b ∷ s) in
      let r = decode_rune-IsRune b s good in
      let p = r.positive in
      let w = r.within in
      let chunk : length (output (b ∷ s)) ≡ n =
        output-length b s ∙ unfold output_bytes in rw good refl in
      let ih : length (blank_controls f (drop n (b ∷ s))) ≤ length (drop n (b ∷ s)) =
        length-blank_controls f (drop n (b ∷ s)) (omega arith) (ground arith) in
      elim (Bool-cases (is_control (decode_rune (b ∷ s)).0)) [
        | inl control ↦ rw control (omega arith)
        | inr plain ↦ rw (plain, length-append (output (b ∷ s)) _) (omega arith)
      ]
]

pub length-normalize_media_field :
    (value : Bytes) (limit : ℕ) → length (normalize_media_field value limit) ≤ limit
unfolding normalize_media_field valid_string
length-normalize_media_field value limit =
    let r = normalize_bounded_utf8-IsBoundedPrefix value limit in
    let w = r.within in
    let bounded = (normalize_bounded_utf8 value limit).0 in
    let l = length-blank_controls (length bounded) bounded (omega arith) r.is_valid in omega arith

-- Of names and of the inputs of a download.
pub record IsMedia (m : Media) : Type 0 where
  pub name_bounded : length m.name ≤ max_media_name_bytes
  pub mime_bounded : length m.mime_type ≤ max_media_mime_bytes
  pub path_bounded : length m.direct_path ≤ max_media_direct_path_bytes
  pub key_bounded : length m.media_key ≤ max_media_key_bytes
  pub hash_bounded : length m.file_sha256 ≤ max_media_hash_bytes
  pub enc_hash_bounded : length m.file_enc_sha256 ≤ max_media_hash_bytes

pub new_media-IsMedia :
    (kind : ℕ) (name mime : Bytes) {m : Media} → new_media kind name mime ≡ ok m → IsMedia m
unfolding new_media
new_media-IsMedia kind name mime {m} e =
    let fields : named ≡ m = ground arith in
    subst IsMedia fields (record {
      name_bounded = length-normalize_media_field name max_media_name_bytes;
      mime_bounded = length-normalize_media_field mime max_media_mime_bytes;
      path_bounded = omega arith;
      key_bounded = omega arith;
      hash_bounded = omega arith;
      enc_hash_bounded = omega arith;
    })
  where
    named : Media
    named = record no_media {
      kind = kind;
      name = normalize_media_field name max_media_name_bytes;
      mime_type = normalize_media_field mime max_media_mime_bytes;
    }

is_empty-length : (s : Bytes) → is_empty s ≡ true → length s ≡ 0
is_empty-length [] e = refl
is_empty-length (b ∷ s) e = cc

empty_length : (s : Bytes) (n : ℕ) → is_empty s ≡ true → length s ≤ n
empty_length s n e = omega (arith, is_empty-length s e)

no_media-IsMedia : (m : Media) → is_no_media m ≡ true → IsMedia m
unfolding is_no_media
no_media-IsMedia m e = record {
  name_bounded = empty_length m.name _ (ground arith);
  mime_bounded = empty_length m.mime_type _ (ground arith);
  path_bounded = empty_length m.direct_path _ (ground arith);
  key_bounded = empty_length m.media_key _ (ground arith);
  hash_bounded = empty_length m.file_sha256 _ (ground arith);
  enc_hash_bounded = empty_length m.file_enc_sha256 _ (ground arith);
}

-- The inputs of a download are bounded, whether there is one or not.
record AreInputs (m : Media) : Type 0 where
  path : length m.direct_path ≤ max_media_direct_path_bytes
  key : length m.media_key ≤ max_media_key_bytes
  hash : length m.file_sha256 ≤ max_media_hash_bytes
  enc_hash : length m.file_enc_sha256 ≤ max_media_hash_bytes

given-AreInputs :
    (m : Media)
    → valid_download_metadata m.direct_path m.media_key m.file_sha256 m.file_enc_sha256 ≡ true
    → AreInputs m
unfolding valid_download_metadata
given-AreInputs m e = record {
  path = ground arith;
  key = ground arith;
  hash = ground arith;
  enc_hash = ground arith;
}

absent-AreInputs :
    (m : Media)
    → is_empty m.direct_path ≡ true
    → not (
        is_empty m.media_key
        && (is_empty m.file_sha256 && (is_empty m.file_enc_sha256 && m.declared_bytes == 0)))
      ≡ false
    → AreInputs m
absent-AreInputs m p e = record {
  path = empty_length m.direct_path _ p;
  key = empty_length m.media_key _ (ground arith);
  hash = empty_length m.file_sha256 _ (ground arith);
  enc_hash = empty_length m.file_enc_sha256 _ (ground arith);
}

validate_some_media-IsMedia : (m : Media) → validate_some_media m ≡ ok tt → IsMedia m
unfolding validate_some_media has_download
validate_some_media-IsMedia m e =
    let inputs : AreInputs m = elim (Bool-cases (is_empty m.direct_path)) [
      | inl empty ↦ absent-AreInputs m empty (ground arith)
      | inr path ↦ given-AreInputs m (ground arith)
    ] in
    record {
      name_bounded = ground arith;
      mime_bounded = ground arith;
      path_bounded = inputs.path;
      key_bounded = inputs.key;
      hash_bounded = inputs.hash;
      enc_hash_bounded = inputs.enc_hash;
    }

-- Accepted media have names and download inputs within their limits, also where the direct path is
-- empty.
pub validate_media-IsMedia : (m : Media) → validate_media m ≡ ok tt → IsMedia m
unfolding validate_media
validate_media-IsMedia m e = elim (Bool-cases (is_no_media m)) [
  | inl zero_value ↦ no_media-IsMedia m zero_value
  | inr some_value ↦ validate_some_media-IsMedia m (ground arith)
]

pub clone_media-IsMedia : (m : Media) {c : Media} → clone_media m ≡ ok c → IsMedia c
unfolding clone_media
clone_media-IsMedia m {c} e =
    let (valid, same) = >>-eq-ok (validate_media m) (ok m) e in
    let same' : m ≡ c = ground arith in subst IsMedia same' (validate_media-IsMedia m valid)
