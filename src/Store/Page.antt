-- ===== src/Store/Page.antt =====
-- Pages of a chat (`Page` of internal/store/memory.go), newest first, from a cursor on.
pub mod Order
pub mod Step
pub mod Bounds
pub mod Walk
use walite.Base.{
  ℕ, zero, suc, ◌-◌, ℤ, pos, negsuc, Bool, true, false, ◌||◌, List, [], ◌∷◌, map, Bytes, bytes_lt,
  ltb, Result, ok, err, ◌>>=◌, ◌>>◌, reject_if, length, take, filter_by, Option, none, some,
  if◌then◌else◌, sort_by, get_elem?,
}
use walite.Assoc.{Assoc, lookup}
use walite.Model.Error.{Validated}
use walite.Model.Time.{before, after, equal}
use walite.Model.Identifier.{ChatId, new_chat_id}
use walite.Model.Message.{Message}
use walite.Model.Anchor.{Cursor, no_cursor, is_no_cursor, new_cursor}
use walite.Store.Memory.{
  Memory, MemoryChat, StoreError, Context, rejected, check_context, or_rejected,
}

abbrev pub max_page_messages : ℕ
max_page_messages = 100

unfoldable pub validate_cursor : Cursor → Validated (Unit {0})
validate_cursor c =
    if is_no_cursor c then ok tt else new_cursor c.sent_at c.message_id >>= λ owned. ok tt

unfoldable pub newer : Message → Message → Bool
newer l r =
    if equal l.sent_at r.sent_at
    then bytes_lt r.message_id.value l.message_id.value
    else after l.sent_at r.sent_at

unfoldable pub older_than : Message → Cursor → Bool
older_than m c =
    if equal m.sent_at c.sent_at
    then bytes_lt m.message_id.value c.message_id.value
    else before m.sent_at c.sent_at

abbrev pub all_messages : MemoryChat → List Message
all_messages c = map (λ (e : Bytes × Message). e.1) c.messages

abbrev pub last_of : List Message → Option Message
last_of [] = none
last_of (m ∷ []) = some m
last_of (m ∷ n ∷ ms) = last_of (n ∷ ms)

-- `next, _ = model.NewCursor(…)`
abbrev pub or_no_cursor : Validated Cursor → Cursor
or_no_cursor (ok c) = c
or_no_cursor (err e) = no_cursor

abbrev pub cursor_at : Option Message → Cursor
cursor_at none = no_cursor
cursor_at (some m) = or_no_cursor (new_cursor m.sent_at m.message_id)

-- The messages behind the cursor, newest first.
unfoldable pub behind : Cursor → List Message → List Message
behind cursor ms = sort_by newer (filter_by (λ m. is_no_cursor cursor || older_than m cursor) ms)

abbrev pub cut : ℕ → List Message → List Message × Cursor
cut limit ordered = (
  take limit ordered,
  if ltb limit (length ordered) then cursor_at (last_of (take limit ordered)) else no_cursor,
)

unfoldable pub page_of : Option MemoryChat → Cursor → ℕ → List Message × Cursor
page_of none cursor limit = ([], no_cursor)
page_of (some c) cursor limit = cut limit (behind cursor (all_messages c))

-- `limit <= 0` is refused, and a large limit cut.
unfoldable pub page_limit : ℤ → Result StoreError ℕ
page_limit (pos zero) = err rejected
page_limit (pos (suc n)) = ok (if ltb max_page_messages (suc n) then max_page_messages else suc n)
page_limit (negsuc n) = err rejected

unfoldable pub page :
    Memory → Context → ChatId → Cursor → ℤ → Result StoreError (List Message × Cursor)
page s context id cursor limit = do
  check_context context
  owned ← or_rejected (new_chat_id id.value)
  or_rejected (validate_cursor cursor)
  bounded ← page_limit limit
  ok (page_of (lookup owned.value s.chats) cursor bounded)
