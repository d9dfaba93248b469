-- ===== src/Service/Writer/Batch.antt =====
-- The writer's bounded batch keeps what holds of the store, whichever of its parts fails.
use walite.Base.{
  ℕ, suc, Bool, true, false, ◌==◌, List, [], ◌∷◌, Result, ok, err, WhenOk, WhenOk-after,
  if◌then◌else◌,
}
use walite.Model.Identifier.{ChatId}
use walite.Model.Message.{Message}
use walite.Model.Anchor.{write_realtime}
use walite.Model.Batch.{WriteBatch, new_write_batch}
use walite.Model.LiveEvent.{LiveEvent}
use walite.SyncPolicy.{Policy}
use walite.Store.Memory.{Memory, StoreError, Context, rejected}
use walite.Store.Memory.Invariant.{IsMemory}
use walite.Store.Memory.Keeps.{or_return-IsMemory}
use walite.Store.Write.{write_batch, write_realtime_batch}
use walite.Store.Write.Keeps.{write_batch-IsMemory}
use walite.Store.Prune.Apply.{apply_prune-IsMemory}
use walite.Service.Writer.{
  Round, WriterError, Retained, from_store, from_model, plan_for, prune_chat, prune_chats,
  write_retained, apply_written, apply_decided, apply_bounded_batch,
}

pub prune_chat-IsMemory :
    (p : Policy) (limit : ℕ) (r : Round) (origin : ℕ) (s : Memory) (id : ChatId)
    → IsMemory s
    → IsMemory (prune_chat p limit r origin s id).0
unfolding prune_chat
prune_chat-IsMemory p limit r origin s id v =
    or_return-IsMemory s (plan_for p limit r origin s id) _ v
      (λ plan made. apply_prune-IsMemory s r.at_prune plan v)

prune_chats-IsMemory :
    (p : Policy) (limit : ℕ) (rounds : ℕ → Round) (origin : ℕ) (s : Memory) (index : ℕ)
    (ids : List ChatId)
    → IsMemory s
    → IsMemory (prune_chats p limit rounds origin s index ids).0
unfolding prune_chats
prune_chats-IsMemory p limit rounds origin s index [] v = v
prune_chats-IsMemory p limit rounds origin s index (id ∷ ids) v =
    let first = prune_chat p limit (rounds index) origin s id in
    let kept = prune_chat-IsMemory p limit (rounds index) origin s id v in
    or_return-IsMemory first.0 first.1 _ kept
      (λ done made. prune_chats-IsMemory p limit rounds origin first.0 (suc index) ids kept)

abbrev Keeps : List LiveEvent × Memory → Type 0
Keeps r = IsMemory r.1

from_store-Keeps :
    (r : Result StoreError (List LiveEvent × Memory)) → WhenOk Keeps r → WhenOk Keeps (from_store r)
from_store-Keeps (ok a) h = h
from_store-Keeps (err e) h = tt

write_retained-Keeps :
    (s : Memory) (context : Context) (origin : ℕ) (ms : List Message)
    → IsMemory s
    → WhenOk Keeps (write_retained s context origin ms)
unfolding write_retained
write_retained-Keeps s context origin [] v = v
write_retained-Keeps s context origin (m ∷ ms) v =
    WhenOk-after Keeps (from_model (new_write_batch origin (m ∷ ms))) _
      (λ b made. from_store-Keeps _ (chosen (origin == write_realtime) b))
  where
    realtime :
        (r : Bool) (b : WriteBatch)
        → WhenOk Keeps (if r then write_batch s context b true else err rejected)
    realtime true b = write_batch-IsMemory s context b true v
    realtime false b = tt

    chosen :
        (r : Bool) (b : WriteBatch)
        → WhenOk Keeps
            (if r then write_realtime_batch s context b else write_batch s context b false)
    chosen true b = unfold write_realtime_batch in realtime (b.origin == write_realtime) b
    chosen false b = write_batch-IsMemory s context b false v

apply_written-IsMemory :
    (p : Policy) (limit : ℕ) (prunes : ℕ → Round) (origin : ℕ) (s : Memory) (t : Retained)
    (r : Result WriterError (List LiveEvent × Memory))
    → IsMemory s
    → WhenOk Keeps r
    → IsMemory (apply_written p limit prunes origin s t r).0
unfolding apply_written
apply_written-IsMemory p limit prunes origin s t (err e) v h = v
apply_written-IsMemory p limit prunes origin s t (ok written) v h =
    prune_chats-IsMemory p limit prunes origin written.1 0 t.chats h

apply_decided-IsMemory :
    (p : Policy) (limit : ℕ) (prunes : ℕ → Round) (at_write : Context) (origin : ℕ) (s : Memory)
    (d : Retained × Result WriterError (Unit {0}))
    → IsMemory s
    → IsMemory (apply_decided p limit prunes at_write origin s d).0
unfolding apply_decided
apply_decided-IsMemory p limit prunes at_write origin s (t, err e) v = v
apply_decided-IsMemory p limit prunes at_write origin s (t, ok done) v =
    apply_written-IsMemory p limit prunes origin s t (write_retained s at_write origin t.messages) v
      (write_retained-Keeps s at_write origin t.messages v)

-- The writer's batch leaves a valid store valid, also where one of its decisions, the write or a
-- prune fails.
pub apply_bounded_batch-IsMemory :
    (p : Policy) (limit : ℕ) (decisions : ℕ → Round) (at_write : Context) (prunes : ℕ → Round)
    (s : Memory) (batch : WriteBatch)
    → IsMemory s
    → IsMemory (apply_bounded_batch p limit decisions at_write prunes s batch).0
unfolding apply_bounded_batch
apply_bounded_batch-IsMemory p limit decisions at_write prunes s batch v =
    apply_decided-IsMemory p limit prunes at_write batch.origin s _ v
