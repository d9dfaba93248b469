-- ===== src/Store/Memory/Keeps.antt =====
-- The operations on chats and on their names keep what holds of the store in memory.
use walite.Base.{
  ℕ, zero, suc, ◌≤◌, ◌<◌, ◌≡◌, refl, sym, ◌∙◌, subst, ℤ, pos, negsuc, ◌&&◌, not, Bool-cases,
  Option-cases, inl, inr, [], Bytes, length, length-set, length-replicate, set, get_or, Option,
  none, some, Result, ok, err, ◌>>◌, >>-eq-ok, Result-cases, arith, leb,
}
use walite.Assoc.{
  lookup, insert-HasUniqueKeys, length-insert_new, length-insert_old, All-insert, All-lookup,
}
use walite.Model.Error.{Validated}
use walite.Model.Time.{Time, after}
use walite.Model.Identifier.{ChatId, new_chat_id}
use walite.Model.Identifier.Laws.{IsIdentifier}
use walite.Model.Chat.{Chat}
use walite.Model.Chat.Bounds.{new_chat-IsChat}
use walite.Model.Display.{
  DisplayMetadata, display_metadata_capacity, merge_display, no_display, new_display_metadata,
}
use walite.Store.Memory.{
  Memory, MemoryChat, StoreError, Context, new_memory, check_context, or_rejected, or_return,
  chat_input, put_chat, ensure_at, ensure_chat, normalize_chat, mark_read_at,
  mark_chat_locally_read, rebuild_chat_unread, no_chat, display_slot, display_index, show_display,
  ranked_display, apply_display_at, store_display, apply_display_metadata,
}
use walite.Store.Memory.Invariant.{IsMemory, IsChatEntry}

pub new_memory-IsMemory : (max_chats : ℤ) {s : Memory} → new_memory max_chats ≡ ok s → IsMemory s
unfolding new_memory
new_memory-IsMemory (pos zero) h = cc
new_memory-IsMemory (pos (suc n)) {s} h =
    subst (λ o. OkIsMemory o) h
      (record {
        unique = tt;
        bounded = omega arith;
        entries = tt;
        slots = length-replicate display_metadata_capacity no_display;
        next = omega arith;
      })
  where
    OkIsMemory : Result StoreError Memory → Type 0
    OkIsMemory (ok s) = IsMemory s
    OkIsMemory (err e) = Unit
new_memory-IsMemory (negsuc n) h = cc

-- A chat may take the place of one that is there, or of none where there is room.
pub put_chat-IsMemory :
    (s : Memory) (key : Bytes) (c : MemoryChat)
    → IsMemory s
    → IsChatEntry (key, c)
    → lookup key s.chats ≡ none
    → length s.chats < s.max_chats
    → IsMemory (put_chat s key c)
put_chat-IsMemory s key c v e absent room = record {
  unique = insert-HasUniqueKeys key c s.chats v.unique;
  bounded = omega (arith, length-insert_new key c s.chats absent);
  entries = All-insert IsChatEntry key c s.chats v.entries e;
  slots = v.slots;
  next = v.next;
}

pub replace_chat-IsMemory :
    (s : Memory) (key : Bytes) (c old : MemoryChat)
    → IsMemory s
    → IsChatEntry (key, c)
    → lookup key s.chats ≡ some old
    → IsMemory (put_chat s key c)
replace_chat-IsMemory s key c old v e there = record {
  unique = insert-HasUniqueKeys key c s.chats v.unique;
  bounded =
      subst (λ n. n ≤ s.max_chats) (sym (length-insert_old key c old s.chats there)) v.bounded;
  entries = All-insert IsChatEntry key c s.chats v.entries e;
  slots = v.slots;
  next = v.next;
}

-- The chat itself and the quality of its name play no part.
pub with_chat-IsChatEntry :
    (key : Bytes) (c : MemoryChat) (chat : Chat) (quality : ℕ)
    → IsChatEntry (key, c)
    → IsChatEntry (key, record c { chat = chat; display_quality = quality })
with_chat-IsChatEntry key c chat quality v = record {
  key_valid = v.key_valid;
  unique = v.unique;
  bounded = v.bounded;
  entries = v.entries;
  anchor = v.anchor;
}

pub replace_show-IsMemory :
    (s : Memory) (key : Bytes) (old : MemoryChat) (chat : Chat) (quality : ℕ)
    → IsMemory s
    → lookup key s.chats ≡ some old
    → IsMemory (put_chat s key (record old { chat = chat; display_quality = quality }))
replace_show-IsMemory s key old chat quality v there =
    replace_chat-IsMemory s key (record old { chat = chat; display_quality = quality }) old v
      (with_chat-IsChatEntry key old chat quality
        (All-lookup IsChatEntry key s.chats v.entries there))
      there

ensure_at-IsMemory :
    (s : Memory) (c : Chat)
    → IsMemory s
    → IsIdentifier c.id.value
    → IsMemory (ensure_at s c (lookup c.id.value s.chats)).0
unfolding ensure_at
ensure_at-IsMemory s c v valid = elim (Option-cases (lookup c.id.value s.chats)) [
  | inl absent ↦ elim (Bool-cases (leb s.max_chats (length s.chats))) [
    | inl full ↦ rw (absent, full) v
    | inr room ↦
        rw (absent, room)
          (put_chat-IsMemory s c.id.value
            (record { chat = c; messages = []; anchor = none; display_quality = 0 }) v
            (record {
              key_valid = valid;
              unique = tt;
              bounded = omega arith;
              entries = tt;
              anchor = tt;
            })
            absent (ground arith))
  ]
  | inr (current, there) ↦ elim (Bool-cases (c.placeholder && not current.chat.placeholder)) [
    | inl keep ↦ rw (there, keep) v
    | inr take ↦
        rw (there, take)
          (replace_show-IsMemory s c.id.value current c current.display_quality v there)
  ]
]

-- An operation that returns early leaves the store as it is.
pub or_return-IsMemory {ℓ κ} :
    {E : Type 0} {A : Type ℓ} {B : Type κ} (s : Memory) (r : Result E A)
    (next : A → Memory × Result E B)
    → IsMemory s
    → ((a : A) → r ≡ ok a → IsMemory (next a).0)
    → IsMemory (or_return s r next).0
unfolding or_return
or_return-IsMemory s (err e) next v h = v
or_return-IsMemory s (ok a) next v h = h a refl

pub or_rejected-ok {ℓ} : {A : Type ℓ} (r : Validated A) {a : A} → or_rejected r ≡ ok a → r ≡ ok a
or_rejected-ok (ok b) h = cc
or_rejected-ok (err e) h = cc

pub ensure_chat-IsMemory :
    (s : Memory) (context : Context) (c : Chat) → IsMemory s → IsMemory (ensure_chat s context c).0
unfolding ensure_chat normalize_chat
ensure_chat-IsMemory s context c v =
    or_return-IsMemory s (check_context context >> or_rejected (normalize_chat c))
      (λ n. ensure_at s n (lookup n.id.value s.chats)) v
      (λ n made.
        ensure_at-IsMemory s n v
          (new_chat-IsChat (chat_input c) (
            or_rejected-ok (normalize_chat c)
              (>>-eq-ok (check_context context) _ made).1)).identifier)

mark_read_at-IsMemory :
    (s : Memory) (key : Bytes) (through : Time)
    → IsMemory s
    → IsMemory (mark_read_at s key through (lookup key s.chats)).0
unfolding mark_read_at
mark_read_at-IsMemory s key through v = elim (Option-cases (lookup key s.chats)) [
  | inl absent ↦ rw absent v
  | inr (current, there) ↦ elim (Bool-cases (after current.chat.last_message_at through)) [
    | inl newer ↦ rw (there, newer) v
    | inr older ↦ elim (Result-cases (rebuild_chat_unread current.chat 0)) [
      | inl (e, failed) ↦
          rw (there, older, failed)
            (replace_show-IsMemory s key current no_chat current.display_quality v there)
      | inr (c, made) ↦
          rw (there, older, made)
            (replace_show-IsMemory s key current c current.display_quality v there)
    ]
  ]
]

pub mark_chat_locally_read-IsMemory :
    (s : Memory) (context : Context) (id : ChatId) (through : Time)
    → IsMemory s
    → IsMemory (mark_chat_locally_read s context id through).0
unfolding mark_chat_locally_read
mark_chat_locally_read-IsMemory s context id through v =
    or_return-IsMemory s (check_context context >> or_rejected (new_chat_id id.value))
      (λ owned. mark_read_at s owned.value through (lookup owned.value s.chats)) v
      (λ owned made. mark_read_at-IsMemory s owned.value through v)

-- Names take the place of names.
set_display-IsMemory :
    (s : Memory) (i : ℕ) (d : DisplayMetadata)
    → IsMemory s
    → IsMemory (record s { display = set s.display i d })
set_display-IsMemory s i d v = record {
  unique = v.unique;
  bounded = v.bounded;
  entries = v.entries;
  slots = length-set s.display i d ∙ v.slots;
  next = v.next;
}

display_slot-IsMemory : (s : Memory) (i : Option ℕ) → IsMemory s → IsMemory (display_slot s i).1
display_slot-IsMemory s (some i) v = v
display_slot-IsMemory s none v = record {
  unique = v.unique;
  bounded = v.bounded;
  entries = v.entries;
  slots = length-set s.display s.display_next no_display ∙ v.slots;
  next = rw v.slots (omega arith);
}

apply_display_at-IsMemory :
    (s : Memory) (i : ℕ) (d : DisplayMetadata)
    → IsMemory s
    → IsMemory (apply_display_at s i d (lookup d.id.value s.chats)).0
unfolding apply_display_at
apply_display_at-IsMemory s i d v = elim (Option-cases (lookup d.id.value s.chats)) [
  | inl absent ↦ rw absent (set_display-IsMemory s i d v)
  | inr (c, there) ↦
      let shown = show_display c (ranked_display d c) in
      rw there (
        set_display-IsMemory (put_chat s d.id.value shown) i (ranked_display d c)
          (replace_show-IsMemory s d.id.value c shown.chat shown.display_quality v there))
]

pub apply_display_metadata-IsMemory :
    (s : Memory) (context : Context) (d : DisplayMetadata)
    → IsMemory s
    → IsMemory (apply_display_metadata s context d).0
unfolding apply_display_metadata store_display
apply_display_metadata-IsMemory s context d v =
    or_return-IsMemory s
      (check_context context
        >> or_rejected (new_display_metadata d.id.value d.name d.quality d.group))
      (λ owned. store_display s owned) v
      (λ owned made.
        let slot = display_slot s (display_index s.display owned.id.value) in
        apply_display_at-IsMemory slot.1 slot.0
          (merge_display (get_or slot.1.display slot.0 no_display) owned)
          (display_slot-IsMemory s (display_index s.display owned.id.value) v))
