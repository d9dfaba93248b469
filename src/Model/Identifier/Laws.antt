-- ===== src/Model/Identifier/Laws.antt =====
-- When an identifier is accepted, and that an accepted one is accepted again.
use native.Mathlib.Decide.{dec_lt}
use walite.Base.{
  ℕ, List, All, ◌⊎◌, inl, inr, ◌==◌, ◌||◌, refl, ◌≤◌, ◌<◌, true, false, [], ◌∷◌, Bytes, String, ok,
  ◌≡◌, ◌↔◌, length, arith, >>=-eq-ok, ap, sym, ◌∙◌, ◌>>=◌,
}
use walite.Model.Error.{Validated}
use walite.Model.Identifier.{
  ChatId, MessageId, validate_identifier, new_chat_id, new_message_id, has_control,
  max_identifier_bytes,
}
use walite.Model.Utf8.{valid_string, runes, is_control}

-- Neither NUL nor a control character: ASCII from the blank to the tilde, and from U+00A0 on.
abbrev pub IsPrintable : ℕ → Type 0
IsPrintable r = (0x20 ≤ r) × (r < 0x7F) ⊎ (0xA0 ≤ r)

-- What every stored identifier is.
pub record IsIdentifier (value : Bytes) : Type 0 where
  pub positive : 0 < length value
  pub bounded : length value ≤ max_identifier_bytes
  pub utf8 : valid_string value ≡ true
  pub printable : All IsPrintable (runes value)

has_control_iff : (rs : List ℕ) → (has_control rs ≡ false) ↔ All IsPrintable rs
unfolding has_control is_control
has_control_iff [] = (λ h. tt, λ v. refl)
has_control_iff (r ∷ rs) =
    let rest = has_control_iff rs in
    (λ h. (printable r (ground arith), rest.0 (ground arith)), λ v. ground (arith, v.0, rest.1 v.1))
  where
    printable : (r : ℕ) → (r == 0 || is_control r) ≡ false → IsPrintable r
    printable r h = elim (dec_lt r 0x7F) [
      | yes low ↦ inl (ground arith, low)
      | no high ↦ inr (ground arith)
    ]

-- An identifier is accepted exactly if it is not empty, has at most 512 bytes, is valid UTF-8, and
-- each of its runes is from U+0020 to U+007E or at least U+00A0.
pub validate_identifier_iff :
    (value : Bytes) (field : String)
    → (validate_identifier value field ≡ ok tt) ↔ IsIdentifier value
unfolding validate_identifier
validate_identifier_iff [] field = (λ h. cc, λ v. absurd (omega arith))
validate_identifier_iff (b ∷ s) field =
    let p = has_control_iff (runes (b ∷ s)) in
    (
      λ h. record {
        positive = omega arith;
        bounded = ground arith;
        utf8 = ground arith;
        printable = p.0 (ground arith);
      },
      λ v. let clean = p.1 v.printable in let low = v.bounded in let u = v.utf8 in ground arith,
    )

pub new_chat_id-IsIdentifier :
    (value : Bytes) {c : ChatId} → new_chat_id value ≡ ok c → IsIdentifier value × (c.value ≡ value)
unfolding new_chat_id
new_chat_id-IsIdentifier value h = ground (arith, (validate_identifier_iff value "chat_id").0)

pub new_chat_id-ok : (c : ChatId) → IsIdentifier c.value → new_chat_id c.value ≡ ok c
unfolding new_chat_id
new_chat_id-ok c v = rw ((validate_identifier_iff c.value "chat_id").1 v)

pub new_message_id-IsIdentifier :
    (value : Bytes) {m : MessageId}
    → new_message_id value ≡ ok m
    → IsIdentifier value × (m.value ≡ value)
unfolding new_message_id
new_message_id-IsIdentifier value h = ground (arith, (validate_identifier_iff value "message_id").0)

pub new_message_id-ok : (m : MessageId) → IsIdentifier m.value → new_message_id m.value ≡ ok m
unfolding new_message_id
new_message_id-ok m v = rw ((validate_identifier_iff m.value "message_id").1 v)

-- A passed construction of an identifier, and what followed it.
pub new_chat_id-then {ℓ} :
    {B : Type ℓ} (value : Bytes) (k : ChatId → Validated B) {b : B}
    → (new_chat_id value >>= k) ≡ ok b
    → IsIdentifier value × (k (record { value = value }) ≡ ok b)
new_chat_id-then value k h =
    let (c, made, rest) = >>=-eq-ok (new_chat_id value) k h in
    let (valid, same) = new_chat_id-IsIdentifier value made in
    (valid, ap k (chat_id_eta c value same) ∙ rest)
  where
    chat_id_eta : (c : ChatId) (v : Bytes) → c.value ≡ v → record { value = v } ≡ c
    chat_id_eta c v e = λ i. record { value = sym e i }

pub new_message_id-then {ℓ} :
    {B : Type ℓ} (value : Bytes) (k : MessageId → Validated B) {b : B}
    → (new_message_id value >>= k) ≡ ok b
    → IsIdentifier value × (k (record { value = value }) ≡ ok b)
new_message_id-then value k h =
    let (c, made, rest) = >>=-eq-ok (new_message_id value) k h in
    let (valid, same) = new_message_id-IsIdentifier value made in
    (valid, ap k (message_id_eta c value same) ∙ rest)
  where
    message_id_eta : (c : MessageId) (v : Bytes) → c.value ≡ v → record { value = v } ≡ c
    message_id_eta c v e = λ i. record { value = sym e i }
