-- ===== src/Store/Memory/Invariant.antt =====
-- What holds of the store in memory between two operations.
use walite.Base.{
  ◌≤◌, ◌<◌, ◌≡◌, ◌≢◌, ◌∙◌, sym, ap, false, List, [], ◌∷◌, map, Bytes, bytes_eq, bytes_eq_refl,
  arith, subst, length, Option, none, some, All, AllPairs,
}
use walite.Assoc.{Assoc, lookup, HasUniqueKeys}
use walite.Model.Time.{is_zero}
use walite.Model.Identifier.Laws.{IsIdentifier}
use walite.Model.Message.{Message}
use walite.Model.Anchor.{MessageAnchor}
use walite.Model.Normalize.{max_retained_text_bytes}
use walite.Model.Display.{display_metadata_capacity}
use walite.Model.Retention.{max_retention_snapshot_summaries}
use walite.Store.Memory.{Memory, MemoryChat}

-- A message under its key, in the map of its chat.
pub record IsMessageEntry (key : Bytes) (e : Bytes × Message) : Type 0 where
  pub chat : e.1.chat_id.value ≡ key
  pub id : e.1.message_id.value ≡ e.0
  pub id_valid : IsIdentifier e.0
  pub sent : is_zero e.1.sent_at ≡ false
  pub text_bounded : length e.1.text ≤ max_retained_text_bytes

-- An anchor is of its chat, and `NewMessageAnchor` makes it.
abbrev pub IsAnchor : Bytes → Option MessageAnchor → Type 0
IsAnchor key none = Unit {0}
IsAnchor key (some a) =
    (a.chat_id.value ≡ key) × IsIdentifier a.message_id.value × (is_zero a.sent_at ≡ false)

pub record IsChatEntry (e : Bytes × MemoryChat) : Type 0 where
  pub key_valid : IsIdentifier e.0
  pub unique : HasUniqueKeys e.1.messages
  pub bounded : length e.1.messages ≤ max_retention_snapshot_summaries
  pub entries : All (IsMessageEntry e.0) e.1.messages
  pub anchor : IsAnchor e.0 e.1.anchor

pub record IsMemory (s : Memory) : Type 0 where
  pub unique : HasUniqueKeys s.chats
  pub bounded : length s.chats ≤ s.max_chats
  pub entries : All IsChatEntry s.chats
  pub slots : length s.display ≡ display_metadata_capacity
  pub next : s.display_next < display_metadata_capacity

abbrev pub messages_of : Assoc Message → List Message
messages_of es = map (λ (e : Bytes × Message). e.1) es

abbrev pub HaveOtherIds : Message → Message → Type 0
HaveOtherIds m n = m.message_id.value ≢ n.message_id.value

absent_id :
    (key id : Bytes) (es : Assoc Message)
    → lookup id es ≡ none
    → All (IsMessageEntry key) es
    → All (λ n. id ≢ n.message_id.value) (messages_of es)
unfolding lookup
absent_id key id [] h v = tt
absent_id key id ((j, n) ∷ es) h v =
    (λ e. different id j n es h (e ∙ v.0.id), absent_id key id es (ground arith) v.1)
  where
    different :
        (id j : Bytes) (n : Message) (es : Assoc Message) → lookup id ((j, n) ∷ es) ≡ none → id ≢ j
    different id j n es h e =
        absurd (grind (arith, ap (λ t. bytes_eq t id) (sym e) ∙ bytes_eq_refl id))

pub messages_of-AllPairs :
    (key : Bytes) (es : Assoc Message)
    → HasUniqueKeys es
    → All (IsMessageEntry key) es
    → AllPairs HaveOtherIds (messages_of es)
messages_of-AllPairs key [] u v = tt
messages_of-AllPairs key ((j, n) ∷ es) u v = (
  subst (λ t. All (λ m. t ≢ m.message_id.value) (messages_of es)) (sym v.0.id)
      (absent_id key j es u.0 v.1),
  messages_of-AllPairs key es u.1 v.1,
)

-- A message that stands under its key in the chat.
pub record IsMessageOf (key : Bytes) (m : Message) : Type 0 where
  pub chat : m.chat_id.value ≡ key
  pub chat_valid : IsIdentifier m.chat_id.value
  pub id_valid : IsIdentifier m.message_id.value
  pub sent : is_zero m.sent_at ≡ false
  pub text_bounded : length m.text ≤ max_retained_text_bytes

pub messages_of-IsMessageOf :
    (key : Bytes) (es : Assoc Message)
    → IsIdentifier key
    → All (IsMessageEntry key) es
    → All (IsMessageOf key) (messages_of es)
messages_of-IsMessageOf key [] valid h = tt
messages_of-IsMessageOf key ((j, m) ∷ es) valid h = (
  record {
    chat = h.0.chat;
    chat_valid = subst IsIdentifier (sym h.0.chat) valid;
    id_valid = subst IsIdentifier (sym h.0.id) h.0.id_valid;
    sent = h.0.sent;
    text_bounded = h.0.text_bounded;
  },
  messages_of-IsMessageOf key es valid h.1,
)
