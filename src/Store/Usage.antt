-- ===== src/Store/Usage.antt =====
-- The estimate of the store's size (`Usage` of internal/store/memory.go).
pub mod Counts
use walite.Base.{
  ℕ, ◌+◌, ◌-◌, ◌^◌, pos, List, [], ◌∷◌, ltb, Result, ◌>>◌, length, Option, none, some,
  if◌then◌else◌,
}
use walite.Assoc.{Assoc}
use walite.Model.Identifier.{is_empty}
use walite.Model.Message.{Message}
use walite.Model.Anchor.{MessageAnchor}
use walite.Model.Display.{DisplayMetadata, display_byte_size}
use walite.Model.Retention.{CacheUsage, new_cache_usage}
use walite.Store.Memory.{Memory, MemoryChat, StoreError, Context, check_context, or_invalid}

abbrev pub chat_envelope_bytes : ℕ
chat_envelope_bytes = 64

abbrev pub message_envelope_bytes : ℕ
message_envelope_bytes = 64

abbrev pub anchor_envelope_bytes : ℕ
anchor_envelope_bytes = 32

-- `math.MaxInt64`
abbrev pub max_int64 : ℕ
max_int64 = 2 ^ 63 - 1

-- No argument is negative.
unfoldable pub add_saturated : ℕ → ℕ → ℕ
add_saturated left right = if ltb (max_int64 - right) left then max_int64 else left + right

-- The variables of the loops.
pub record Tally : Type 0 where
  pub bytes : ℕ
  pub messages : ℕ
  pub bodies : ℕ
  pub anchors : ℕ

unfoldable pub add_display : ℕ → List DisplayMetadata → ℕ
add_display bytes [] = bytes
add_display bytes (d ∷ ds) =
    add_display
      (if is_empty d.id.value then bytes else add_saturated bytes (32 + display_byte_size d)) ds

unfoldable pub add_messages : Tally → Assoc Message → Tally
add_messages t [] = t
add_messages t ((id, m) ∷ ms) =
    add_messages
      (record t {
        bytes = add_saturated t.bytes (message_envelope_bytes + m.byte_size);
        messages = t.messages + 1;
        bodies = if m.body_retained then t.bodies + 1 else t.bodies;
      })
      ms

abbrev pub add_anchor : Tally → Option MessageAnchor → Tally
add_anchor t none = t
add_anchor t (some a) = record t {
  bytes =
      add_saturated t.bytes
        (anchor_envelope_bytes + length a.chat_id.value + length a.message_id.value);
  anchors = t.anchors + 1;
}

unfoldable pub add_chats : Tally → Assoc MemoryChat → Tally
add_chats t [] = t
add_chats t ((key, c) ∷ cs) =
    add_chats
      (add_anchor
        (add_messages
          (record t {
            bytes =
                add_saturated t.bytes
                  (chat_envelope_bytes + length c.chat.id.value + length c.chat.display_name);
          })
          c.messages)
        c.anchor)
      cs

unfoldable pub tally : Memory → Tally
tally s =
    add_chats (record { bytes = add_display 0 s.display; messages = 0; bodies = 0; anchors = 0 })
      s.chats

unfoldable pub usage : Memory → Context → Result StoreError CacheUsage
usage s context = do
  check_context context
  or_invalid (
      new_cache_usage (pos (tally s).bytes) (pos (length s.chats)) (pos (tally s).messages)
        (pos (tally s).bodies) (pos (tally s).anchors))
