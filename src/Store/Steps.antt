-- ===== src/Store/Steps.antt =====
-- The store in memory as a state machine: a step is one operation, by any caller.
use walite.Base.{ℤ, Bool, List, ok, WhenOk-ok, ◌≡◌}
use walite.Model.Time.{Time}
use walite.Model.Identifier.{ChatId}
use walite.Model.Chat.{Chat}
use walite.Model.Batch.{WriteBatch}
use walite.Model.Display.{DisplayMetadata}
use walite.Model.LiveEvent.{LiveEvent}
use walite.Model.Retention.{PrunePlan}
use walite.Store.Memory.{
  Memory, Context, new_memory, ensure_chat, mark_chat_locally_read, apply_display_metadata,
}
use walite.Store.Memory.Invariant.{IsMemory}
use walite.Store.Memory.Keeps.{
  new_memory-IsMemory, ensure_chat-IsMemory, mark_chat_locally_read-IsMemory,
  apply_display_metadata-IsMemory,
}
use walite.Store.Write.{write_batch}
use walite.Store.Write.Keeps.{write_batch-IsMemory}
use walite.Store.Prune.{apply_prune}
use walite.Store.Prune.Apply.{apply_prune-IsMemory}

-- The operations that change the store, whatever their outcome; a write changes it where it succeeds.
pub data Step : Memory → Memory → Type 0 where
  ensures : (s : Memory) (context : Context) (c : Chat) → Step s (ensure_chat s context c).0
  marks :
      (s : Memory) (context : Context) (id : ChatId) (through : Time)
      → Step s (mark_chat_locally_read s context id through).0
  names :
      (s : Memory) (context : Context) (d : DisplayMetadata)
      → Step s (apply_display_metadata s context d).0
  writes :
      (s t : Memory) (context : Context) (batch : WriteBatch) (emit_live : Bool)
      (events : List LiveEvent)
      → write_batch s context batch emit_live ≡ ok (events, t)
      → Step s t
  prunes :
      (s : Memory) (context : Context) (plan : PrunePlan) → Step s (apply_prune s context plan).0

pub data Reachable : Memory → Type 0 where
  created : (max_chats : ℤ) (s : Memory) → new_memory max_chats ≡ ok s → Reachable s
  stepped : (s t : Memory) → Reachable s → Step s t → Reachable t

-- Each operation keeps what holds of the store.
pub Step-IsMemory : {s t : Memory} → Step s t → IsMemory s → IsMemory t
Step-IsMemory (ensures s context c) v = ensure_chat-IsMemory s context c v
Step-IsMemory (marks s context id through) v =
    mark_chat_locally_read-IsMemory s context id through v
Step-IsMemory (names s context d) v = apply_display_metadata-IsMemory s context d v
Step-IsMemory (writes s t context batch emit_live events e) v =
    WhenOk-ok (λ (r : List LiveEvent × Memory). IsMemory r.1)
      (write_batch s context batch emit_live) (write_batch-IsMemory s context batch emit_live v) e
Step-IsMemory (prunes s context plan) v = apply_prune-IsMemory s context plan v

-- Every store that the operations reach from a new one is valid: it has at most `maxChats` chats,
-- with different keys; each has at most 551 messages, with different identifiers, each of the chat,
-- under its key, with an accepted identifier, a time and a bounded text, and an anchor of the chat
-- if any; and the name cache keeps its 128 slots.
pub Reachable-IsMemory : {s : Memory} → Reachable s → IsMemory s
Reachable-IsMemory (created max_chats s e) = new_memory-IsMemory max_chats e
Reachable-IsMemory (stepped s t r step) = Step-IsMemory step (Reachable-IsMemory r)
