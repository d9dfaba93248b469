-- ===== src/Store/Write/Batch.antt =====
-- The messages of a batch that its constructor has copied.
use walite.Base.{
  ℕ, ◌≤◌, ◌≡◌, refl, sym, subst, Bool, true, false, inl, inr, List, [], ◌∷◌, Bytes, length, All, ok,
  >>-eq-ok, reject_if, reject_if-then, WhenOk, WhenOk->>=, WhenOk-after, Result-cases, arith, ltb,
  if◌then◌else◌,
}
use walite.Model.Error.{size_exceeded, new_validation_error}
use walite.Model.Time.{is_zero}
use walite.Model.Normalize.{max_retained_text_bytes}
use walite.Model.Identifier.{validate_identifier, new_chat_id, new_message_id}
use walite.Model.Identifier.Laws.{
  IsIdentifier, new_chat_id-IsIdentifier, new_message_id-IsIdentifier,
}
use walite.Model.Media.{clone_media}
use walite.Model.Quote.{clone_text_quote}
use walite.Model.Message.{Message, validate_message}
use walite.Model.Anchor.{validate_write_origin}
use walite.Model.Batch.{
  WriteBatch, new_write_batch, fill_write_batch, clone_messages, clone_normalized_message,
  max_write_batch_messages, no_messages, write_batch_byte_size,
}
use walite.Store.Stage.Places.{IsWhole}

-- The messages of a batch, as its constructor copies them.
validate_message-parts :
    (m : Message) {n : ℕ}
    → validate_message m ≡ ok n
    → (is_zero m.sent_at ≡ false) × (length m.text ≤ max_retained_text_bytes)
unfolding validate_message
validate_message-parts m h =
    let (chat, h1) = >>-eq-ok (validate_identifier m.chat_id.value "chat_id") _ h in
    let (id, h2) = >>-eq-ok (validate_identifier m.message_id.value "message_id") _ h1 in
    let (sent, h3) = reject_if-then (is_zero m.sent_at) _ _ h2 in
    let (short, h4) = reject_if-then (ltb max_retained_text_bytes (length m.text)) _ _ h3 in
    (sent, ground arith)

new_chat_id-valid : (v : Bytes) → WhenOk (λ c. IsIdentifier c.value) (new_chat_id v)
new_chat_id-valid v = elim (Result-cases (new_chat_id v)) [
  | inl (e, failed) ↦ rw failed tt
  | inr (c, made) ↦
      let (valid, same) = new_chat_id-IsIdentifier v made in
      rw made (subst IsIdentifier (sym same) valid)
]

new_message_id-valid : (v : Bytes) → WhenOk (λ c. IsIdentifier c.value) (new_message_id v)
new_message_id-valid v = elim (Result-cases (new_message_id v)) [
  | inl (e, failed) ↦ rw failed tt
  | inr (c, made) ↦
      let (valid, same) = new_message_id-IsIdentifier v made in
      rw made (subst IsIdentifier (sym same) valid)
]

abbrev IsCopy : Message × ℕ → Type 0
IsCopy r = IsWhole r.0

clone-IsCopy : (m : Message) → WhenOk IsCopy (clone_normalized_message m)
unfolding clone_normalized_message
clone-IsCopy m = WhenOk-after IsCopy (validate_message m) _ (λ size valid.
    let (sent, short) = validate_message-parts m valid in
    WhenOk->>= (λ c. IsIdentifier c.value) IsCopy (new_chat_id m.chat_id.value) _
      (new_chat_id-valid m.chat_id.value)
      (λ chat made chat_valid.
        WhenOk->>= (λ c. IsIdentifier c.value) IsCopy (new_message_id m.message_id.value) _
          (new_message_id-valid m.message_id.value)
          (λ id built id_valid. WhenOk-after IsCopy (clone_text_quote m.quote) _ (λ quote quoted.
            WhenOk-after IsCopy (clone_media m.media) _ (λ media cloned. record {
              chat = refl;
              chat_valid = chat_valid;
              id_valid = id_valid;
              sent = sent;
              text_bounded = short;
            })))))

abbrev AreCopies : List Message × List ℕ → Type 0
AreCopies r = All IsWhole r.0

clone_messages-AreCopies : (ms : List Message) → WhenOk AreCopies (clone_messages ms)
unfolding clone_messages
clone_messages-AreCopies [] = tt
clone_messages-AreCopies (m ∷ ms) =
    WhenOk->>= IsCopy AreCopies (clone_normalized_message m) _ (clone-IsCopy m) (λ owned made whole.
      WhenOk->>= AreCopies AreCopies (clone_messages ms) _ (clone_messages-AreCopies ms)
        (λ rest copied all. (whole, all)))

abbrev HasCopies : WriteBatch → Type 0
HasCopies b = All IsWhole b.messages

-- The messages of a batch that is made are valid.
pub new_write_batch-IsWhole :
    (origin : ℕ) (ms : List Message)
    → WhenOk (λ (b : WriteBatch). All IsWhole b.messages) (new_write_batch origin ms)
unfolding new_write_batch fill_write_batch
new_write_batch-IsWhole origin ms =
    WhenOk-after HasCopies (validate_write_origin origin) _ (λ u checked.
      WhenOk-after HasCopies
        (reject_if (ltb max_write_batch_messages (length ms))
          (new_validation_error size_exceeded "write_batch_messages" max_write_batch_messages))
        _ (λ w few. filled (no_messages ms)))
  where
    filled :
        (b : Bool)
        → WhenOk HasCopies (
            if b
            then ok (record { origin = origin; messages = []; byte_size = 0 })
            else fill_write_batch origin ms)
    filled true = tt
    filled false =
        WhenOk->>= AreCopies HasCopies (clone_messages ms) _ (clone_messages-AreCopies ms)
          (λ owned cloned all.
            WhenOk-after HasCopies (write_batch_byte_size owned.1) _ (λ n charged. all))
