-- ===== src/Model/ReadReceipt/Frontier.antt =====
-- What an accepted request holds.
use walite.Base.{
  ℕ, ◌≤◌, suc, ◌≡◌, ◌==◌, refl, subst, ap, Bool, false, ◌&&◌, ◌||◌, List, [], ◌∷◌, Bytes, bytes_eq,
  ltb, ok, length, All, All-imp, AllPairs, arith, if◌then◌else◌, >>=-eq-ok, reject_if-then,
}
use walite.Model.Time.{Time, zero_time, is_zero, after}
use walite.Model.Identifier.{MessageId, new_message_id, new_chat_id, is_empty}
use walite.Model.ReadReceipt.{
  ReadReceiptMessageInput, ReadReceiptMessage, ReadReceiptRequest, rejected, or_rejected,
  or_invalid, seen, own_sender, own_receipts, new_read_receipt_request, newest_from, newest_sent_at,
  max_read_receipt_messages,
}

record Owned (previous : List MessageId) (n : ℕ) (ms : List ReadReceiptMessage) : Type 0 where
  pub new : All (λ (m : ReadReceiptMessage). seen m.message_id previous ≡ false) ms
  pub timed : All (λ (m : ReadReceiptMessage). is_zero m.sent_at ≡ false) ms
  pub distinct :
      AllPairs
        (λ (a b : ReadReceiptMessage). bytes_eq a.message_id.value b.message_id.value ≡ false)
        ms
  pub size : length ms ≡ n

not_before :
    (first id : MessageId) (ids : List MessageId)
    → seen id (first ∷ ids) ≡ false
    → seen id ids ≡ false
unfolding seen
not_before first id ids h = ground arith

not_first :
    (first id : MessageId) (ids : List MessageId)
    → seen id (first ∷ ids) ≡ false
    → bytes_eq first.value id.value ≡ false
unfolding seen
not_first first id ids h = ground arith

own_receipts-Owned :
    (group : Bool) (previous : List MessageId) (inputs : List ReadReceiptMessageInput)
    {ms : List ReadReceiptMessage}
    → own_receipts group previous inputs ≡ ok ms
    → Owned previous (length inputs) ms
unfolding own_receipts
own_receipts-Owned group previous [] {ms} h =
    let same : [] ≡ ms = cc in
    subst (Owned previous 0) same (record { new = tt; timed = tt; distinct = tt; size = refl })
own_receipts-Owned group previous (input ∷ inputs) {ms} h =
    let (id, made, h1) = >>=-eq-ok (or_rejected (new_message_id input.message_id)) _ h in
    let (timed, h2) = reject_if-then (is_zero input.sent_at) rejected _ h1 in
    let (fresh, h3) = reject_if-then (seen id previous) rejected _ h2 in
    let (sender, made_sender, h4) = >>=-eq-ok (own_sender input.sender_id) _ h3 in
    let (named, h5) = reject_if-then (group && is_empty sender.value) rejected _ h4 in
    let (rest, owned, last) = >>=-eq-ok (own_receipts group (id ∷ previous) inputs) _ h5 in
    let first : ReadReceiptMessage = record {
      message_id = id;
      sent_at = input.sent_at;
      sender_id = sender;
    } in
    let same : (first ∷ rest) ≡ ms = cc in
    let r = own_receipts-Owned group (id ∷ previous) inputs owned in
    subst (Owned previous (suc (length inputs))) same (record {
      new = (
        fresh,
        All-imp (λ m. seen m.message_id (id ∷ previous) ≡ false)
            (λ m. seen m.message_id previous ≡ false) (λ m k. not_before id m.message_id previous k)
            rest r.new,
      );
      timed = (timed, r.timed);
      distinct = (
        All-imp (λ m. seen m.message_id (id ∷ previous) ≡ false)
            (λ m. bytes_eq id.value m.message_id.value ≡ false)
            (λ m k. not_first id m.message_id previous k) rest r.new,
        r.distinct,
      );
      size = ap suc r.size;
    })

newest_from-latest :
    (t : Time) (ms : List ReadReceiptMessage)
    → (after t (newest_from t ms) ≡ false)
      × All (λ (m : ReadReceiptMessage). after m.sent_at (newest_from t ms) ≡ false) ms
unfolding newest_from
newest_from-latest t [] = (ground arith, tt)
newest_from-latest t (m ∷ ms) =
    let (kept, all) = newest_from-latest (if after m.sent_at t then m.sent_at else t) ms in
    (ground arith, (ground arith, all))

-- What an accepted request is, made from that many inputs.
pub record IsFrontier (n : ℕ) (r : ReadReceiptRequest) : Type 0 where
  pub size : length r.messages ≡ n
  pub filled : 1 ≤ length r.messages
  pub bounded : length r.messages ≤ max_read_receipt_messages
  pub timed : All (λ (m : ReadReceiptMessage). is_zero m.sent_at ≡ false) r.messages
  pub distinct :
      AllPairs
        (λ (a b : ReadReceiptMessage). bytes_eq a.message_id.value b.message_id.value ≡ false)
        r.messages
  pub latest :
      All (λ (m : ReadReceiptMessage). after m.sent_at (newest_sent_at r) ≡ false) r.messages

-- An accepted request holds as many messages as it was made from, between 1 and 32, each with a
-- time and with different identifiers, and none of them is later than the time of its newest
-- message.
pub new_read_receipt_request-IsFrontier :
    (chat_id : Bytes) (group : Bool) (inputs : List ReadReceiptMessageInput)
    {r : ReadReceiptRequest}
    → new_read_receipt_request chat_id group inputs ≡ ok r
    → IsFrontier (length inputs) r
unfolding new_read_receipt_request
new_read_receipt_request-IsFrontier chat_id group inputs {r} h =
    let (sized, h1) =
      reject_if-then (length inputs == 0 || ltb max_read_receipt_messages (length inputs)) rejected
        _ h in
    let (id, made, h2) = >>=-eq-ok (or_invalid (new_chat_id chat_id)) _ h1 in
    let (ms, all, last) = >>=-eq-ok (own_receipts group [] inputs) _ h2 in
    let request : ReadReceiptRequest = record { chat_id = id; group = group; messages = ms } in
    let same : request ≡ r = cc in
    let owned = own_receipts-Owned group [] inputs all in
    subst (IsFrontier (length inputs)) same (record {
      size = owned.size;
      filled = ground (arith, owned.size);
      bounded = ground (arith, owned.size);
      timed = owned.timed;
      distinct = owned.distinct;
      latest = (newest_from-latest zero_time ms).1;
    })
