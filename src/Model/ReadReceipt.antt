-- ===== src/Model/ReadReceipt.antt =====
-- Requests to acknowledge messages as read (internal/model/read_receipt.go).
use walite.Base.{
  ℕ, ◌==◌, pos, Bool, true, false, ◌&&◌, ◌||◌, List, [], ◌∷◌, Bytes, bytes_eq, ltb, Result, ok, err,
  ◌>>=◌, ◌>>◌, reject_if, length, if◌then◌else◌,
}
use walite.Model.Error.{Validated, ValidationError}
use walite.Model.Time.{Time, zero_time, is_zero, after}
use walite.Model.Identifier.{
  ChatId, ContactId, MessageId, new_chat_id, new_contact_id, new_message_id, is_empty,
}
pub mod Frontier

abbrev pub max_read_receipt_messages : ℕ
max_read_receipt_messages = 32

pub record ReadReceiptMessageInput : Type 0 where
  pub message_id : Bytes
  pub sent_at : Time
  pub sender_id : Bytes

pub record ReadReceiptMessage : Type 0 where
  pub message_id : MessageId
  pub sent_at : Time
  pub sender_id : ContactId

-- The array holds `count` messages, the list those alone.
pub record ReadReceiptRequest : Type 0 where
  pub chat_id : ChatId
  pub group : Bool
  pub messages : List ReadReceiptMessage

-- The rejection of a request, and the error of an identifier that is passed on.
pub data ReceiptError : Type 0 where
  rejected : ReceiptError
  invalid : ValidationError → ReceiptError

abbrev pub or_rejected {ℓ} : {A : Type ℓ} → Validated A → Result ReceiptError A
or_rejected (ok a) = ok a
or_rejected (err e) = err rejected

abbrev pub or_invalid {ℓ} : {A : Type ℓ} → Validated A → Result ReceiptError A
or_invalid (ok a) = ok a
or_invalid (err e) = err (invalid e)

-- The inner loop: one of the messages before has the identifier.
unfoldable pub seen : MessageId → List MessageId → Bool
seen id [] = false
seen id (previous ∷ ids) = bytes_eq previous.value id.value || seen id ids

unfoldable pub own_sender : Bytes → Result ReceiptError ContactId
own_sender value =
    if is_empty value then ok (record { value = [] }) else or_invalid (new_contact_id value)

-- The loop over the inputs, with the identifiers of the messages before.
unfoldable pub own_receipts :
    Bool
    → List MessageId
    → List ReadReceiptMessageInput
    → Result ReceiptError (List ReadReceiptMessage)
own_receipts group previous [] = ok []
own_receipts group previous (input ∷ inputs) = do
  message_id ← or_rejected (new_message_id input.message_id)
  reject_if (is_zero input.sent_at) rejected
  reject_if (seen message_id previous) rejected
  sender_id ← own_sender input.sender_id
  reject_if (group && is_empty sender_id.value) rejected
  rest ← own_receipts group (message_id ∷ previous) inputs
  ok (record { message_id = message_id; sent_at = input.sent_at; sender_id = sender_id } ∷ rest)

unfoldable pub new_read_receipt_request :
    Bytes → Bool → List ReadReceiptMessageInput → Result ReceiptError ReadReceiptRequest
new_read_receipt_request chat_id group inputs = do
  reject_if (length inputs == 0 || ltb max_read_receipt_messages (length inputs)) rejected
  id ← or_invalid (new_chat_id chat_id)
  messages ← own_receipts group [] inputs
  ok (record { chat_id = id; group = group; messages = messages })

unfoldable pub newest_from : Time → List ReadReceiptMessage → Time
newest_from newest [] = newest
newest_from newest (m ∷ ms) = newest_from (if after m.sent_at newest then m.sent_at else newest) ms

abbrev pub newest_sent_at : ReadReceiptRequest → Time
newest_sent_at request = newest_from zero_time request.messages
