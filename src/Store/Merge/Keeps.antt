-- ===== src/Store/Merge/Keeps.antt =====
-- What a message keeps when it is merged with the stored one of its identifier.
use walite.Base.{
  ◌==◌, ◌≡◌, refl, ap, ◌∙◌, false, ◌&&◌, ◌||◌, not, Bool-cases, inl, inr, eqb_ℤ-eq, Result-cases,
  arith, if◌then◌else◌,
}
use walite.Model.Media.{Media, clone_media}
use walite.Model.Quote.{is_no_quote}
use walite.Model.Message.{
  Message, with_media, with_quote, with_sender, with_notification_eligibility,
}
use walite.Store.Merge.{
  merge_message, merge_media, merged_media, keep_body_of, keep_quote_of, keep_sender_of, conflicts,
}

-- The parts of a message that no change of its quote, medium or sender touches.
pub record SameText (m r : Message) : Type 0 where
  pub chat : r.chat_id ≡ m.chat_id
  pub id : r.message_id ≡ m.message_id
  pub sent : r.sent_at ≡ m.sent_at
  pub from_me : r.from_me ≡ m.from_me
  pub text : r.text ≡ m.text
  pub body : r.body_retained ≡ m.body_retained

SameText-self : (m : Message) → SameText m m
SameText-self m = record {
  chat = refl;
  id = refl;
  sent = refl;
  from_me = refl;
  text = refl;
  body = refl;
}

SameText-through : (m n r : Message) → SameText m n → SameText n r → SameText m r
SameText-through m n r h k = record {
  chat = k.chat ∙ h.chat;
  id = k.id ∙ h.id;
  sent = k.sent ∙ h.sent;
  from_me = k.from_me ∙ h.from_me;
  text = k.text ∙ h.text;
  body = k.body ∙ h.body;
}

with_media-SameText :
    (m : Message) (x : Media) → SameText m (with_media m x) × ((with_media m x).quote ≡ m.quote)
unfolding with_media
with_media-SameText m x = elim (Result-cases (clone_media x)) [
  | inl (e, failed) ↦ rw (with_media, failed) (SameText-self m, refl)
  | inr (owned, made) ↦
      rw (with_media, made)
        (
          record { chat = refl; id = refl; sent = refl; from_me = refl; text = refl; body = refl },
          refl,
        )
]

merge_media-SameText :
    (prior : Media) (m : Message)
    → SameText m (merge_media prior m) × ((merge_media prior m).quote ≡ m.quote)
unfolding merge_media
merge_media-SameText prior m = elim (Bool-cases (prior.kind == 0)) [
  | inl none ↦ rw none (SameText-self m, refl)
  | inr some ↦ elim (Bool-cases (not (m.media.kind == prior.kind))) [
    | inl other ↦ rw (some, other) (with_media-SameText m prior)
    | inr same ↦ rw (some, same) (with_media-SameText m (merged_media prior m.media))
  ]
]

keep_quote_of-SameText : (prior m : Message) → SameText m (keep_quote_of prior m)
unfolding keep_quote_of with_quote
keep_quote_of-SameText prior m = elim (Bool-cases (is_no_quote prior.quote)) [
  | inl none ↦ rw none (SameText-self m)
  | inr some ↦
      rw some
        (record { chat = refl; id = refl; sent = refl; from_me = refl; text = refl; body = refl })
]

keep_quote_of-quote :
    (prior m : Message)
    → (keep_quote_of prior m).quote ≡ (if is_no_quote prior.quote then m.quote else prior.quote)
unfolding keep_quote_of with_quote
keep_quote_of-quote prior m = elim (Bool-cases (is_no_quote prior.quote)) [
  | inl e ↦ rw e
  | inr e ↦ rw e
]

keep_sender_of-SameText :
    (prior m : Message)
    → SameText m (keep_sender_of prior m) × ((keep_sender_of prior m).quote ≡ m.quote)
unfolding keep_sender_of with_sender
keep_sender_of-SameText prior m =
    (record { chat = refl; id = refl; sent = refl; from_me = refl; text = refl; body = refl }, refl)

-- What the two have in common stays, and no body and no quote is lost.
pub record Merged (prior m r : Message) : Type 0 where
  pub chat : r.chat_id.value ≡ m.chat_id.value
  pub id : r.message_id.value ≡ m.message_id.value
  pub sent : r.sent_at ≡ m.sent_at
  pub from_me : r.from_me ≡ m.from_me
  pub body : r.body_retained ≡ (prior.body_retained || m.body_retained)
  pub text : r.text ≡ (if prior.body_retained && not m.body_retained then prior.text else m.text)
  pub quote : r.quote ≡ (
      if is_no_quote prior.quote
      then if prior.body_retained && not m.body_retained then prior.quote else m.quote
      else prior.quote)

not_conflicting :
    (prior m : Message)
    → conflicts prior m ≡ false
    → (prior.sent_at ≡ m.sent_at) × (prior.from_me ≡ m.from_me)
unfolding conflicts
not_conflicting prior m h = (eqb_ℤ-eq prior.sent_at m.sent_at (ground arith), ground arith)

-- Merged with a stored message of its keys, time and direction, a message keeps these; it has a
-- body if either has one, the stored text if only the stored one has a body and otherwise its own,
-- which may be empty or differ from the stored text, and the reply reference of the stored one if
-- that has any.
pub merge_message-Merged :
    (prior m : Message)
    → prior.chat_id.value ≡ m.chat_id.value
    → prior.message_id.value ≡ m.message_id.value
    → conflicts prior m ≡ false
    → Merged prior m (merge_message prior m)
unfolding merge_message keep_body_of with_notification_eligibility
merge_message-Merged prior m chat id agree =
    let (sent, from_me) = not_conflicting prior m agree in
    let marked = with_notification_eligibility m prior.notification_eligible in
    let body = keep_body_of prior marked in
    let quoted = keep_quote_of prior body in
    let showed = merge_media prior.media quoted in
    let kept = keep_sender_of prior showed in
    let k1 = keep_quote_of-SameText prior body in
    let (k2, q2) = merge_media-SameText prior.media quoted in
    let (k3, q3) = keep_sender_of-SameText prior showed in
    let k = SameText-through body quoted kept k1 (SameText-through quoted showed kept k2 k3) in
    elim (Bool-cases (prior.body_retained && not m.body_retained)) [
      | inl lost ↦ record {
        chat = ap (λ c. c.value) k.chat ∙ rw lost chat;
        id = ap (λ c. c.value) k.id ∙ rw lost id;
        sent = k.sent ∙ rw lost sent;
        from_me = k.from_me ∙ rw lost from_me;
        body = k.body ∙ rw lost (ground arith);
        text = k.text ∙ rw lost refl;
        quote = q3 ∙ q2 ∙ keep_quote_of-quote prior body ∙ rw lost;
      }
      | inr there ↦ record {
        chat = ap (λ c. c.value) k.chat ∙ rw there;
        id = ap (λ c. c.value) k.id ∙ rw there;
        sent = k.sent ∙ rw there;
        from_me = k.from_me ∙ rw there;
        body = k.body ∙ rw there (ground arith);
        text = k.text ∙ rw there;
        quote = q3 ∙ q2 ∙ keep_quote_of-quote prior body ∙ rw there;
      }
    ]
