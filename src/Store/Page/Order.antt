-- ===== src/Store/Page/Order.antt =====
-- The order of a page: newest first, with the identifier where two times are equal.
use walite.Base.{
  ◌≡◌, refl, sym, true, false, Bool-cases, inl, inr, List, ◌∙◌, AllPairs, AllPairs-zip, sort_by,
  NotAfter, sort_by-IsSorted, sort_by-AllPairs, eqb_ℤ_sym,
}
use walite.Model.Order.{
  key_before, key_before_irrefl, key_before_asymm, key_before_tri, key_before_chain,
  key_before_through,
}
use walite.Model.Message.{Message}
use walite.Model.Anchor.{Cursor}
use walite.Store.Memory.Invariant.{HaveOtherIds}
use walite.Store.Page.{newer, older_than}

pub newer-key_before :
    (l r : Message)
    → newer l r ≡ key_before r.sent_at r.message_id.value l.sent_at l.message_id.value
unfolding newer key_before
newer-key_before l r = rw (eqb_ℤ_sym l.sent_at r.sent_at)

-- A cursor at a message is passed by the older ones.
abbrev pub at : Message → Cursor
at m = record { sent_at = m.sent_at; message_id = m.message_id }

pub older_than-at : (m n : Message) → older_than m (at n) ≡ newer n m
unfolding older_than key_before
older_than-at m n = sym (newer-key_before n m)

pub older_than-key_before :
    (m : Message) (c : Cursor)
    → older_than m c ≡ key_before m.sent_at m.message_id.value c.sent_at c.message_id.value
unfolding older_than key_before
older_than-key_before m c = refl

pub newer_irrefl : (m : Message) → newer m m ≡ false
newer_irrefl m = newer-key_before m m ∙ key_before_irrefl m.sent_at m.message_id.value

pub newer_asymm : (l r : Message) → newer l r ≡ true → newer r l ≡ false
newer_asymm l r h =
    newer-key_before r l
    ∙ key_before_asymm r.sent_at r.message_id.value l.sent_at l.message_id.value
        (sym (newer-key_before l r) ∙ h)

pub newer_chain : (l m r : Message) → newer m l ≡ false → newer r m ≡ false → newer r l ≡ false
newer_chain l m r h k =
    newer-key_before r l
    ∙ key_before_chain l.sent_at l.message_id.value m.sent_at m.message_id.value r.sent_at
        r.message_id.value (sym (newer-key_before m l) ∙ h) (sym (newer-key_before r m) ∙ k)

-- Messages with other identifiers are told apart.
newer_tri : (l r : Message) → newer r l ≡ false → HaveOtherIds l r → newer l r ≡ true
newer_tri l r h apart = elim (Bool-cases (newer l r)) [
  | inl e ↦ e
  | inr e ↦ absurd (
      apart
        (key_before_tri l.sent_at l.message_id.value r.sent_at r.message_id.value
          (sym (newer-key_before r l) ∙ h) (sym (newer-key_before l r) ∙ e)).1)
]

abbrev pub Newer : Message → Message → Type 0
Newer l r = newer l r ≡ true

-- Sorted, messages with different identifiers stand strictly newest first.
pub sort_by-Newer :
    (ms : List Message) → AllPairs HaveOtherIds ms → AllPairs Newer (sort_by newer ms)
sort_by-Newer ms h =
    AllPairs-zip (NotAfter newer) HaveOtherIds Newer newer_tri (sort_by newer ms)
      (sort_by-IsSorted newer newer_asymm newer_chain ms)
      (sort_by-AllPairs newer HaveOtherIds (λ l r ne e. ne (sym e)) ms h)

-- What is older than a message is behind each cursor that the message is behind.
pub older_than-through :
    (m n : Message) (c : Cursor) → newer n m ≡ true → older_than n c ≡ true → older_than m c ≡ true
older_than-through m n c h k =
    older_than-key_before m c
    ∙ key_before_through m.sent_at m.message_id.value n.sent_at n.message_id.value c.sent_at
        c.message_id.value (sym (newer-key_before n m) ∙ h) (sym (older_than-key_before n c) ∙ k)
