-- ===== src/Tests/Receipts.antt =====
-- A request of two messages (internal/model/read_receipt.go).
use walite.Base.{pos, ◌≡◌, refl, true, List, [], ◌∷◌, bytes_eq, ok}
use walite.Model.Utf8.{valid_string, runes, decode_rune, is_control}
use walite.Model.Identifier.{
  validate_identifier, has_control, new_chat_id, new_contact_id, new_message_id,
}
use walite.Model.ReadReceipt.{
  ReadReceiptMessageInput, ReadReceiptRequest, own_receipts, own_sender, seen,
  new_read_receipt_request,
}
use walite.Model.ReadReceipt.Frontier.{IsFrontier, new_read_receipt_request-IsFrontier}

abbrev two_read : List ReadReceiptMessageInput
two_read =
    record { message_id = 0x61 ∷ []; sent_at = pos 20; sender_id = 0x73 ∷ [] }
    ∷ record { message_id = 0x62 ∷ []; sent_at = pos 10; sender_id = 0x74 ∷ [] }
    ∷ []

abbrev request : ReadReceiptRequest
request = record {
  chat_id = record { value = 0x63 ∷ [] };
  group = true;
  messages =
      record {
        message_id = record { value = 0x61 ∷ [] };
        sent_at = pos 20;
        sender_id = record { value = 0x73 ∷ [] };
      }
      ∷ record {
        message_id = record { value = 0x62 ∷ [] };
        sent_at = pos 10;
        sender_id = record { value = 0x74 ∷ [] };
      }
      ∷ [];
}

request_made : new_read_receipt_request (0x63 ∷ []) true two_read ≡ ok request
unfolding new_read_receipt_request own_receipts own_sender seen new_chat_id new_contact_id
    new_message_id validate_identifier has_control valid_string runes decode_rune is_control
    bytes_eq
request_made = refl

new_read_receipt_request-IsFrontier_example : IsFrontier 2 request
new_read_receipt_request-IsFrontier_example =
    new_read_receipt_request-IsFrontier (0x63 ∷ []) true two_read request_made
