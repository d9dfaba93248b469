-- ===== src/Model/Quote/Bounds.antt =====
-- The lengths in an accepted reply reference.
use walite.Base.{
  ℕ, zero, suc, ◌≤◌, ◌==◌, Bool, true, false, not, [], Bytes, ◌≡◌, length, take, length-take, arith,
  Bool-cases, inl, inr, ltb, ok, >>=-eq-ok, ◌>>=◌, subst, if◌then◌else◌, get_or,
}
use walite.Model.Error.{Validated}
use walite.Model.Utf8.{later}
use walite.Model.Identifier.{max_identifier_bytes, is_empty}
use walite.Model.Identifier.Laws.{new_message_id-then, new_chat_id-then}
use walite.Model.Media.{Media, no_media, new_media, max_media_name_bytes, max_media_mime_bytes}
use walite.Model.Media.Bounds.{IsMedia, new_media-IsMedia}
use walite.Model.Quote.{
  TextQuote, no_quote, is_no_quote, new_quote, new_text_quote, new_media_quote, with_participant,
  clone_some_quote, clone_text_quote, quote_end, rune_start_before, max_quote_text_bytes,
}

rune_start_before_le : (text : Bytes) (n : ℕ) → rune_start_before text n ≤ n
unfolding rune_start_before
rune_start_before_le text zero = omega arith
rune_start_before_le text (suc n) = elim (Bool-cases (later (get_or text (suc n) 0))) [
  | inl inside ↦ rw inside (omega (arith, rune_start_before_le text n))
  | inr start ↦ rw start (omega arith)
]

quote_end_le : (text : Bytes) → quote_end text ≤ max_quote_text_bytes
unfolding quote_end
quote_end_le text = elim (Bool-cases (ltb max_quote_text_bytes (length text))) [
  | inl long ↦ rw long (rune_start_before_le text max_quote_text_bytes)
  | inr short ↦ rw short (ground arith)
]

-- Of what a message is charged for.
pub record IsQuote (q : TextQuote) : Type 0 where
  pub id_bounded : length q.id.value ≤ max_identifier_bytes
  pub text_bounded : length q.text ≤ max_quote_text_bytes
  pub participant_bounded : length q.participant_id.value ≤ max_identifier_bytes
  pub name_bounded : length q.media.name ≤ max_media_name_bytes
  pub mime_bounded : length q.media.mime_type ≤ max_media_mime_bytes

no_quote-IsQuote : IsQuote no_quote
no_quote-IsQuote = record {
  id_bounded = omega arith;
  text_bounded = omega arith;
  participant_bounded = omega arith;
  name_bounded = omega arith;
  mime_bounded = omega arith;
}

new_quote-IsQuote :
    (id text : Bytes) (from_me : Bool) (media : Media) (require_text : Bool) {q : TextQuote}
    → IsMedia media
    → new_quote id text from_me media require_text ≡ ok q
    → IsQuote q
unfolding new_quote
new_quote-IsQuote id text from_me media require_text {q} v e =
    let (valid, rest) = new_message_id-then id _ e in
    let made : quoted ≡ q = ground arith in
    subst IsQuote made (record {
      id_bounded = valid.bounded;
      text_bounded = omega (arith, length-take (quote_end text) text, quote_end_le text);
      participant_bounded = omega arith;
      name_bounded = v.name_bounded;
      mime_bounded = v.mime_bounded;
    })
  where
    quoted : TextQuote
    quoted = record {
      id = record { value = id };
      text = take (quote_end text) text;
      from_me = from_me;
      media = media;
      participant_id = record { value = [] };
    }

no_media-IsMedia : IsMedia no_media
no_media-IsMedia = record {
  name_bounded = omega arith;
  mime_bounded = omega arith;
  path_bounded = omega arith;
  key_bounded = omega arith;
  hash_bounded = omega arith;
  enc_hash_bounded = omega arith;
}

new_text_quote-IsQuote :
    (id text : Bytes) (from_me : Bool) {q : TextQuote}
    → new_text_quote id text from_me ≡ ok q
    → IsQuote q
unfolding new_text_quote
new_text_quote-IsQuote id text from_me e =
    new_quote-IsQuote id text from_me no_media true no_media-IsMedia e

new_media_quote-IsQuote :
    (id caption : Bytes) (from_me : Bool) (media : Media) {q : TextQuote}
    → new_media_quote id caption from_me media ≡ ok q
    → IsQuote q
unfolding new_media_quote
new_media_quote-IsQuote id caption from_me media {q} e =
    let next : (new_media media.kind media.name media.mime_type >>= λ m.
    new_quote id caption from_me m false)
        ≡ ok q =
      ground arith in
    let (owned, made, rest) = >>=-eq-ok (new_media media.kind media.name media.mime_type) _ next in
    new_quote-IsQuote id caption from_me owned false (new_media-IsMedia _ _ _ made) rest

with_participant-IsQuote :
    (q : TextQuote) (id : Bytes) {r : TextQuote}
    → IsQuote q
    → with_participant q id ≡ ok r
    → IsQuote r
unfolding with_participant
with_participant-IsQuote q id {r} v e =
    let (valid, rest) = new_chat_id-then id (λ c. ok (record q { participant_id = c })) e in
    let made : record q { participant_id = record { value = id } } ≡ r = ground arith in
    subst IsQuote made (record {
      id_bounded = v.id_bounded;
      text_bounded = v.text_bounded;
      participant_bounded = valid.bounded;
      name_bounded = v.name_bounded;
      mime_bounded = v.mime_bounded;
    })

-- The quote of `clone_some_quote` without its participant.
abbrev owned_quote : TextQuote → Validated TextQuote
owned_quote q =
    if not (q.media.kind == 0)
    then new_media_quote q.id.value q.text q.from_me q.media
    else new_text_quote q.id.value q.text q.from_me

owned_quote-IsQuote : (q : TextQuote) {r : TextQuote} → owned_quote q ≡ ok r → IsQuote r
owned_quote-IsQuote q e = elim (Bool-cases (q.media.kind == 0)) [
  | inl text_only ↦ new_text_quote-IsQuote q.id.value q.text q.from_me (ground arith)
  | inr media ↦ new_media_quote-IsQuote q.id.value q.text q.from_me q.media (ground arith)
]

abbrev add_participant : TextQuote → TextQuote → Validated TextQuote
add_participant q owned =
    if is_empty q.participant_id.value
    then ok owned
    else with_participant owned q.participant_id.value

clone_some_quote-IsQuote : (q : TextQuote) {r : TextQuote} → clone_some_quote q ≡ ok r → IsQuote r
unfolding clone_some_quote
clone_some_quote-IsQuote q {r} e =
    let next : (owned_quote q >>= add_participant q) ≡ ok r = ground arith in
    let (owned, made, rest) = >>=-eq-ok (owned_quote q) (add_participant q) next in
    let v = owned_quote-IsQuote q made in
    elim (Bool-cases (is_empty q.participant_id.value)) [
      | inl direct ↦ let same : owned ≡ r = ground arith in subst IsQuote same v
      | inr group ↦ with_participant-IsQuote owned q.participant_id.value v (ground arith)
    ]

-- An accepted copy of a reply reference has an identifier, a text, a participant and media names
-- within their limits.
pub clone_text_quote-IsQuote :
    (q : TextQuote) {r : TextQuote} → clone_text_quote q ≡ ok r → IsQuote r
unfolding clone_text_quote
clone_text_quote-IsQuote q {r} e = elim (Bool-cases (is_no_quote q)) [
  | inl zero_value ↦ let same : no_quote ≡ r = ground arith in subst IsQuote same no_quote-IsQuote
  | inr some_value ↦ clone_some_quote-IsQuote q (ground arith)
]
