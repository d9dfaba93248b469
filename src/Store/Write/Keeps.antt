-- ===== src/Store/Write/Keeps.antt =====
-- A batch that is written keeps what holds of the store in memory.
use walite.Base.{
  ◌+◌, ◌≤◌, ◌≡◌, refl, subst, Bool, true, false, not, ◌==◌, inl, inr, ◌⊎◌, List, [], ◌∷◌, Bytes,
  length, All, ok, err, reject_if-then, reject_if-ok, not-false→true, WhenOk, WhenOk->>=,
  WhenOk-after, arith, ltb,
}
use walite.Assoc.{lookup, All-insert}
use walite.Model.Error.{Validated}
use walite.Model.Chat.{Chat}
use walite.Model.Message.{Message}
use walite.Model.Anchor.{write_realtime}
use walite.Model.Batch.{WriteBatch, new_write_batch}
use walite.Model.LiveEvent.{LiveEvent, new_live_event_batch}
use walite.Store.Memory.{
  Memory, Context, check_context, or_rejected, display_for, advance_chat_for_message,
}
use walite.Store.Memory.Invariant.{IsMemory}
use walite.Store.Stage.{
  Staging, no_staging, chat_key, message_key, find_staged, stage_messages, check_room, has_room,
}
use walite.Store.Stage.Places.{HasHome, IsWhole, IsStaging}
use walite.Store.Stage.Loop.{Stages, stage_messages-Stages, no_staging-IsStaging}
use walite.Model.Display.{with_display_metadata}
use walite.Store.Write.{
  Advance, chat_or_new, emit, or_message, advance_one, advance_all, committed, write_messages,
  write_rebuilt, write_batch, add_chats,
}
use walite.Store.Write.Batch.{new_write_batch-IsWhole}
use walite.Store.Write.Assembly.{store_chats-IsAssembly}
use walite.Store.Write.Chats.{
  start-IsAssembly, add_chats-IsAssembly, add_chats-Houses, store_messages-IsAssembly,
}

abbrev KeepsRoom : Memory → List LiveEvent × Memory → Type 0
KeepsRoom s r = IsMemory r.1

-- The chats that the second loop advances are in the store or new.
abbrev AtHome : Memory → Staging → Advance → Type 0
AtHome s g a = All (λ (e : Bytes × Chat). HasHome s g.new_chats e.0) a.chats

advance_one-AtHome :
    (s : Memory) (g : Staging) (realtime emit_live : Bool) (a : Advance) (m : Message)
    → AtHome s g a
    → HasHome s g.new_chats (chat_key m)
    → WhenOk (AtHome s g) (advance_one s realtime emit_live g.staged a m)
unfolding advance_one
advance_one-AtHome s g realtime emit_live a m h home =
    WhenOk-after (AtHome s g)
      (chat_or_new (chat_key m) (lookup (chat_key m) a.chats) (lookup (chat_key m) s.chats)) _
      (λ chat found.
        let shown = with_display_metadata chat (display_for s.display (chat_key m)) in
        WhenOk-after (AtHome s g) (or_rejected (advance_chat_for_message shown m realtime)) _
          (λ advanced made.
            WhenOk-after (AtHome s g)
              (emit emit_live (or_message m (find_staged (chat_key m) (message_key m) g.staged))
                advanced a.events)
              _
              (λ events emitted.
                All-insert (λ (e : Bytes × Chat). HasHome s g.new_chats e.0) (chat_key m) advanced
                  a.chats h home)))

advance_all-AtHome :
    (s : Memory) (g : Staging) (realtime emit_live : Bool) (inserted : List Bool)
    (ms : List Message) (a : Advance)
    → AtHome s g a
    → All (λ m. HasHome s g.new_chats (chat_key m)) ms
    → WhenOk (AtHome s g) (advance_all s realtime emit_live g.staged inserted ms a)
unfolding advance_all
advance_all-AtHome s g realtime emit_live [] ms a h homes = h
advance_all-AtHome s g realtime emit_live (true ∷ inserted) [] a h homes = h
advance_all-AtHome s g realtime emit_live (false ∷ inserted) [] a h homes = h
advance_all-AtHome s g realtime emit_live (false ∷ inserted) (m ∷ ms) a h homes =
    advance_all-AtHome s g realtime emit_live inserted ms a h homes.1
advance_all-AtHome s g realtime emit_live (true ∷ inserted) (m ∷ ms) a h homes =
    WhenOk->>= (AtHome s g) (AtHome s g) (advance_one s realtime emit_live g.staged a m) _
      (advance_one-AtHome s g realtime emit_live a m h homes.0)
      (λ next made k. advance_all-AtHome s g realtime emit_live inserted ms next k homes.1)

check_room-parts :
    (s : Memory) (g : Staging)
    → check_room s g ≡ ok tt
    → (length s.chats + length g.new_chats ≤ s.max_chats) × (has_room s g.new_ids g.new_ids ≡ true)
unfolding check_room
check_room-parts s g h =
    let (few, h1) = reject_if-then (ltb s.max_chats (length s.chats + length g.new_chats)) _ _ h in
    let room = reject_if-ok (not (has_room s g.new_ids g.new_ids)) _ h1 in
    (ground arith, not-false→true (has_room s g.new_ids g.new_ids) room)

committed-IsMemory :
    (s : Memory) (g : Staging) (a : Advance)
    → IsMemory s
    → IsStaging s g
    → AtHome s g a
    → check_room s g ≡ ok tt
    → IsMemory (committed s g a)
unfolding committed
committed-IsMemory s g a v w h room_checked =
    let (few, room) = check_room-parts s g room_checked in
    let new = g.new_ids in
    let added =
      add_chats-IsAssembly s new v room g.new_chats s.chats w.fresh (start-IsAssembly s new v room)
        few in
    let (advanced, homes) =
      store_chats-IsAssembly s new (HasHome s g.new_chats) a.chats (add_chats g.new_chats s.chats) h
        added (λ k home. add_chats-Houses g.new_chats s.chats k home) in
    let done = store_messages-IsAssembly s g g.staged _ w.staged homes advanced in
    record {
      unique = done.unique;
      bounded = done.bounded;
      entries = done.entries;
      slots = v.slots;
      next = v.next;
    }

write_messages-IsMemory :
    (s : Memory) (realtime emit_live : Bool) (ms : List Message)
    → IsMemory s
    → All IsWhole ms
    → WhenOk (KeepsRoom s) (write_messages s realtime emit_live ms)
unfolding write_messages
write_messages-IsMemory s realtime emit_live ms v whole =
    WhenOk->>= (Stages s no_staging ms) (KeepsRoom s) (stage_messages s no_staging ms) _
      (stage_messages-Stages s no_staging ms v (no_staging-IsStaging s) whole)
      (λ g staged k. WhenOk-after (KeepsRoom s) (check_room s g) _ (λ u room.
        WhenOk->>= (AtHome s g) (KeepsRoom s)
          (advance_all s realtime emit_live g.staged g.inserted ms
            (record { chats = []; events = [] }))
          _ (advance_all-AtHome s g realtime emit_live g.inserted ms _ tt k.homes)
          (λ a advanced h.
            WhenOk-after (KeepsRoom s) (or_rejected (new_live_event_batch a.events)) _
              (λ events batched. committed-IsMemory s g a v k.staging h room))))

pub write_batch-IsMemory :
    (s : Memory) (context : Context) (batch : WriteBatch) (emit_live : Bool)
    → IsMemory s
    → WhenOk (λ (r : List LiveEvent × Memory). IsMemory r.1) (write_batch s context batch emit_live)
unfolding write_batch write_rebuilt
write_batch-IsMemory s context batch emit_live v =
    WhenOk-after (KeepsRoom s) (check_context context) _ (λ u runs.
      WhenOk->>= (λ (b : WriteBatch). All IsWhole b.messages) (KeepsRoom s)
        (or_rejected (new_write_batch batch.origin batch.messages)) _
        (owned (new_write_batch batch.origin batch.messages)
          (new_write_batch-IsWhole batch.origin batch.messages))
        (λ b made whole. rebuilt b whole))
  where
    owned :
        (r : Validated WriteBatch)
        → WhenOk (λ (b : WriteBatch). All IsWhole b.messages) r
        → WhenOk (λ (b : WriteBatch). All IsWhole b.messages) (or_rejected r)
    owned (ok b) h = h
    owned (err e) h = tt

    none_or_some :
        (ms : List Message) → (ms ≡ []) ⊎ ((m : Message) × (rest : List Message) × (ms ≡ m ∷ rest))
    none_or_some [] = inl refl
    none_or_some (m ∷ ms) = inr (m, ms, refl)

    rebuilt :
        (b : WriteBatch)
        → All IsWhole b.messages
        → WhenOk (KeepsRoom s) (write_rebuilt s emit_live b)
    rebuilt b whole = elim (none_or_some b.messages) [
      | inl empty ↦ rw (write_rebuilt, empty) v
      | inr (m, ms, filled) ↦
          rw (write_rebuilt, filled)
            (write_messages-IsMemory s (b.origin == write_realtime) emit_live (m ∷ ms) v
              (subst (All IsWhole) filled whole))
    ]
