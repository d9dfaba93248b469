-- ===== src/Store/Memory.antt =====
-- The store in memory (internal/store/memory.go, memory_display.go and chat_list.go): its state, its
-- chats and their display names. A read-write mutex makes each operation one step.
pub mod Invariant
pub mod Keeps
pub mod Errors
use walite.Base.{
  ℕ, zero, suc, ◌+◌, ◌-◌, ◌%◌, ◌==◌, ◌^◌, ℤ, pos, negsuc, leb_ℤ, ltb_ℤ, Bool, true, false, ◌&&◌,
  ◌||◌, not, List, [], ◌∷◌, map, Bytes, bytes_eq, bytes_lt, ltb, leb, Result, ok, err, ◌>>=◌, ◌>>◌,
  reject_if, length, take, get_or, set, replicate, Option, none, some, if◌then◌else◌, sort_by,
}
use walite.Assoc.{Assoc, lookup, insert}
use walite.Model.Error.{Validated, ValidationError}
use walite.Model.Time.{Time, zero_time, is_zero, after, equal}
use walite.Model.Identifier.{ChatId, is_empty, new_chat_id}
use walite.Model.Message.{Message}
use walite.Model.Anchor.{MessageAnchor}
use walite.Model.Chat.{Chat, ChatInput, new_chat}
use walite.Model.Display.{
  DisplayMetadata, no_display, display_metadata_capacity, new_display_metadata, merge_display,
  with_display_metadata,
}

-- The constants of `failure`, the error of a context that has ended, and an error of a constructor
-- that is passed on.
pub data StoreError : Type 0 where
  rejected capacity context_ended : StoreError
  invalid : ValidationError → StoreError

-- A nil context, one that runs, and one with an error.
pub data Context : Type 0 where
  absent running ended : Context

pub record MemoryChat : Type 0 where
  pub chat : Chat
  pub messages : Assoc Message
  pub anchor : Option MessageAnchor
  pub display_quality : ℕ

pub record Memory : Type 0 where
  pub max_chats : ℕ
  pub chats : Assoc MemoryChat
  pub display : List DisplayMetadata
  pub display_next : ℕ

unfoldable pub new_memory : ℤ → Result StoreError Memory
new_memory (pos zero) = err rejected
new_memory (pos (suc n)) = ok (record {
  max_chats = suc n;
  chats = [];
  display = replicate display_metadata_capacity no_display;
  display_next = 0;
})
new_memory (negsuc n) = err rejected

unfoldable pub check_context : Context → Result StoreError (Unit {0})
check_context absent = err rejected
check_context running = ok tt
check_context ended = err context_ended

-- Any error of a constructor becomes a rejection.
abbrev pub or_rejected {ℓ} : {A : Type ℓ} → Validated A → Result StoreError A
or_rejected (ok a) = ok a
or_rejected (err e) = err rejected

abbrev pub or_invalid {ℓ} : {A : Type ℓ} → Validated A → Result StoreError A
or_invalid (ok a) = ok a
or_invalid (err e) = err (invalid e)

-- The input that `NewChat` gets to make a chat anew.
abbrev pub chat_input : Chat → ChatInput
chat_input c = record {
  id = c.id.value;
  contact_id = if c.has_contact then c.contact_id.value else [];
  display_name = c.display_name;
  is_group = c.is_group;
  last_message_at = c.last_message_at;
  unread_count = c.unread_count;
  muted = c.muted;
  archived = c.archived;
  placeholder = c.placeholder;
  updated_at = c.updated_at;
  ingest_seq = c.ingest_seq;
}

unfoldable pub normalize_chat : Chat → Validated Chat
normalize_chat c = new_chat (chat_input c)

unfoldable pub rebuild_chat_unread : Chat → ℕ → Validated Chat
rebuild_chat_unread c unread = new_chat (record (chat_input c) { unread_count = unread })

abbrev pub max_unread : ℕ
max_unread = 2 ^ 32 - 1

unfoldable pub advance_chat_for_message : Chat → Message → Bool → Validated Chat
advance_chat_for_message c m count_unread = new_chat (record (chat_input c) {
  is_group = c.is_group || m.is_group;
  last_message_at =
      if is_zero c.last_message_at || after m.sent_at c.last_message_at
      then m.sent_at
      else c.last_message_at;
  unread_count =
      if count_unread && (not m.from_me && ltb c.unread_count max_unread)
      then c.unread_count + 1
      else c.unread_count;
})

abbrev pub put_chat : Memory → Bytes → MemoryChat → Memory
put_chat s key c = record s { chats = insert key c s.chats }

-- `EnsureChat` with the normalized chat and what stands under its key.
unfoldable pub ensure_at : Memory → Chat → Option MemoryChat → Memory × Result StoreError (Unit {0})
ensure_at s c (some current) =
    if c.placeholder && not current.chat.placeholder
    then (s, ok tt)
    else (put_chat s c.id.value (record current { chat = c }), ok tt)
ensure_at s c none = if leb s.max_chats (length s.chats) then (s, err capacity) else (
  put_chat s c.id.value (record { chat = c; messages = []; anchor = none; display_quality = 0 }),
  ok tt,
)

-- The validations of an operation with an early return, and what follows them.
unfoldable pub or_return {ℓ κ} :
    {E : Type 0} {A : Type ℓ} {B : Type κ}
    → Memory
    → Result E A
    → (A → Memory × Result E B)
    → Memory × Result E B
or_return s (err e) next = (s, err e)
or_return s (ok a) next = next a

unfoldable pub ensure_chat : Memory → Context → Chat → Memory × Result StoreError (Unit {0})
unfolding or_return
ensure_chat s context c =
    or_return s (check_context context >> or_rejected (normalize_chat c))
      (λ normalized. ensure_at s normalized (lookup normalized.id.value s.chats))

abbrev pub no_chat : Chat
no_chat = record {
  id = record { value = [] };
  contact_id = record { value = [] };
  has_contact = false;
  display_name = [];
  name_truncated = false;
  is_group = false;
  last_message_at = zero_time;
  unread_count = 0;
  muted = false;
  archived = false;
  placeholder = false;
  updated_at = zero_time;
  ingest_seq = 0;
}

-- `chat.chat, err = rebuildChatUnread(…)`, which writes the zero chat where it fails.
unfoldable pub mark_read_at :
    Memory → Bytes → Time → Option MemoryChat → Memory × Result StoreError (Unit {0})
mark_read_at s key through none = (s, err rejected)
mark_read_at s key through (some current) =
    if after current.chat.last_message_at through
    then (s, ok tt)
    else elim (rebuild_chat_unread current.chat 0) [
      | err e ↦ (put_chat s key (record current { chat = no_chat }), err rejected)
      | ok c ↦ (put_chat s key (record current { chat = c }), ok tt)
    ]

unfoldable pub mark_chat_locally_read :
    Memory → Context → ChatId → Time → Memory × Result StoreError (Unit {0})
unfolding or_return
mark_chat_locally_read s context id through =
    or_return s (check_context context >> or_rejected (new_chat_id id.value))
      (λ owned. mark_read_at s owned.value through (lookup owned.value s.chats))

-- `displayFor`
unfoldable pub display_for : List DisplayMetadata → Bytes → DisplayMetadata
display_for [] id = no_display
display_for (d ∷ ds) id = if bytes_eq d.id.value id then d else display_for ds id

unfoldable pub display_index : List DisplayMetadata → Bytes → Option ℕ
display_index [] id = none
display_index (d ∷ ds) id =
    if bytes_eq d.id.value id
    then some 0
    else elim (display_index ds id) [ none ↦ none | some i ↦ some (suc i) ]

-- The slot of the name, and the store with the next slot cleared where it has none.
abbrev pub display_slot : Memory → Option ℕ → ℕ × Memory
display_slot s (some i) = (i, s)
display_slot s none = (
  s.display_next,
  record s {
    display = set s.display s.display_next no_display;
    display_next = (s.display_next + 1) % length s.display;
  },
)

-- `owned, _ = model.NewDisplayMetadata(…)`
abbrev pub or_no_display : Validated DisplayMetadata → DisplayMetadata
or_no_display (ok d) = d
or_no_display (err e) = no_display

-- The name that the chat ends up with, which a worse one does not replace.
unfoldable pub ranked_display : DisplayMetadata → MemoryChat → DisplayMetadata
ranked_display d c =
    if ltb d.quality c.display_quality
    then or_no_display (
        new_display_metadata d.id.value c.chat.display_name c.display_quality
          (c.chat.is_group || d.group))
    else d

abbrev pub show_display : MemoryChat → DisplayMetadata → MemoryChat
show_display c d = record c {
  chat = with_display_metadata c.chat d;
  display_quality = if is_empty d.name then c.display_quality else d.quality;
}

unfoldable pub apply_display_at :
    Memory → ℕ → DisplayMetadata → Option MemoryChat → Memory × Result StoreError DisplayMetadata
apply_display_at s i merged none = (record s { display = set s.display i merged }, ok merged)
apply_display_at s i merged (some c) =
    let d = ranked_display merged c in
    (record (put_chat s merged.id.value (show_display c d)) { display = set s.display i d }, ok d)

unfoldable pub store_display : Memory → DisplayMetadata → Memory × Result StoreError DisplayMetadata
store_display s owned =
    let (i, ready) = display_slot s (display_index s.display owned.id.value) in
    let merged = merge_display (get_or ready.display i no_display) owned in
    apply_display_at ready i merged (lookup merged.id.value ready.chats)

unfoldable pub apply_display_metadata :
    Memory → Context → DisplayMetadata → Memory × Result StoreError DisplayMetadata
unfolding or_return
apply_display_metadata s context d =
    or_return s
      (check_context context
        >> or_rejected (new_display_metadata d.id.value d.name d.quality d.group))
      (λ owned. store_display s owned)

abbrev pub max_chat_summaries : ℕ
max_chat_summaries = 10000

unfoldable pub bounded_chat_list_limit : ℤ → ℕ
bounded_chat_list_limit (pos zero) = max_chat_summaries
bounded_chat_list_limit (pos (suc n)) =
    if ltb max_chat_summaries (suc n) then max_chat_summaries else suc n
bounded_chat_list_limit (negsuc n) = max_chat_summaries

-- The comparison of `ListChats`.
unfoldable pub chat_first : Chat → Chat → Bool
chat_first l r =
    if equal l.last_message_at r.last_message_at
    then bytes_lt l.id.value r.id.value
    else after l.last_message_at r.last_message_at

abbrev pub all_chats : Memory → List Chat
all_chats s = map (λ (e : Bytes × MemoryChat). e.1.chat) s.chats

unfoldable pub list_chats : Memory → Context → ℤ → Result StoreError (List Chat)
list_chats s context limit = do
  check_context context
  ok (take (bounded_chat_list_limit limit) (sort_by chat_first (all_chats s)))
