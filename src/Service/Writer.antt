-- ===== src/Service/Writer.antt =====
-- The writer's bounded batch (`applyBoundedBatch` of internal/service/writer.go, `countNewerBodies` of
-- internal/service/history.go): the policy decides on each message, the batch is written, and each of
-- its chats is pruned. The store is the one in memory.
pub mod Prune
pub mod Batch
pub mod Loop
use walite.Base.{
  ℕ, zero, suc, ◌+◌, ◌==◌, ℤ, pos, Bool, true, false, ◌&&◌, ◌||◌, not, List, [], ◌∷◌, ◌++◌, Bytes,
  bytes_eq, bytes_lt, ltb, length, Result, ok, err, ◌>>=◌, ◌>>◌, reject_if, if◌then◌else◌,
}
use walite.Model.Error.{Validated, ValidationError}
use walite.Model.Time.{Time, after, equal}
use walite.Model.Identifier.{ChatId}
use walite.Model.Message.{Message, without_body}
use walite.Model.Anchor.{write_realtime}
use walite.Model.Batch.{WriteBatch, new_write_batch}
use walite.Model.LiveEvent.{LiveEvent}
use walite.Model.Retention.{
  MessageSummary, RetentionSnapshot, RetentionState, RetentionDecision, CacheUsage, PrunePlan,
  keep_body, keep_metadata, discard,
}
use walite.SyncPolicy.{Policy, decide, plan_prune}
use walite.Store.Memory.{Memory, StoreError, Context, check_context, or_return}
use walite.Store.Write.{write_batch, write_realtime_batch}
use walite.Store.Prune.{retention_snapshot, apply_prune}
use walite.Store.Usage.{usage}

-- An error of the store, of a constructor or the policy, and `errQueueInvariant`.
pub data WriterError : Type 0 where
  of_store : StoreError → WriterError
  of_model : ValidationError → WriterError
  invariant : WriterError

abbrev pub from_store {ℓ} : {A : Type ℓ} → Result StoreError A → Result WriterError A
from_store (ok a) = ok a
from_store (err e) = err (of_store e)

abbrev pub from_model {ℓ} : {A : Type ℓ} → Validated A → Result WriterError A
from_model (ok a) = ok a
from_model (err e) = err (of_model e)

-- What one round of a loop reads from outside: the context, which may end between two readings, and
-- the clock.
pub record Round : Type 0 where
  pub at_start : Context
  pub at_snapshot : Context
  pub at_usage : Context
  pub at_prune : Context
  pub now : Time

-- The test of the loop of `countNewerBodies`.
unfoldable pub is_newer_body : Message → MessageSummary → Bool
is_newer_body candidate x =
    x.body_retained
    && (after x.sent_at candidate.sent_at
        || (equal x.sent_at candidate.sent_at
            && bytes_lt candidate.message_id.value x.message_id.value))

unfoldable pub count_newer_in : List MessageSummary → Message → ℕ
count_newer_in [] candidate = 0
count_newer_in (x ∷ xs) candidate =
    (if is_newer_body candidate x then 1 else 0) + count_newer_in xs candidate

abbrev pub count_newer_bodies : RetentionSnapshot → Message → ℕ
count_newer_bodies snapshot candidate = count_newer_in snapshot.summaries candidate

-- The snapshot of a chat, which the limit bounds, and the usage.
unfoldable pub survey :
    Memory → ℕ → Round → ChatId → Result WriterError (RetentionSnapshot × CacheUsage)
survey s limit r id = do
  from_store (check_context r.at_start)
  snapshot ← from_store (retention_snapshot s r.at_snapshot id)
  reject_if (ltb limit (length snapshot.summaries)) invariant
  used ← from_store (usage s r.at_usage)
  ok (snapshot, used)

-- The variables of the first loop.
pub record Retained : Type 0 where
  pub messages : List Message
  pub chats : List ChatId
  pub discarded : ℕ

unfoldable pub retain : Retained → Message → ℕ → Result WriterError Retained
retain t m action =
    if action == keep_body
    then ok (record t { messages = t.messages ++ (m ∷ []) })
    else if action == keep_metadata
    then ok (record t { messages = t.messages ++ (without_body m ∷ []) })
    else if action == discard
    then ok (record t { discarded = t.discarded + 1 })
    else err invariant

unfoldable pub is_listed : ChatId → List ChatId → Bool
is_listed id [] = false
is_listed id (c ∷ cs) = bytes_eq c.value id.value || is_listed id cs

unfoldable pub list_chat : ChatId → List ChatId → List ChatId
list_chat id cs = if is_listed id cs then cs else cs ++ (id ∷ [])

unfoldable pub decide_one :
    Policy → ℕ → Round → ℕ → Memory → Retained → Message → Result WriterError Retained
decide_one p limit r origin s t m = do
  seen ← survey s limit r m.chat_id
  decision ← from_model (
      decide p m (record {
        now = r.now;
        newer_bodies = pos (count_newer_bodies seen.0 m);
        usage = seen.1;
        origin = origin;
      }))
  kept ← retain t m decision.action
  ok (record kept { chats = list_chat m.chat_id kept.chats })

abbrev or_stop :
    Retained
    → Result WriterError Retained
    → (Retained → Retained × Result WriterError (Unit {0}))
    → Retained × Result WriterError (Unit {0})
or_stop t (ok next) rest = rest next
or_stop t (err e) rest = (t, err e)

-- Where a round fails, the loop has what the rounds before it made.
unfoldable pub decide_all :
    Policy
    → ℕ
    → (ℕ → Round)
    → ℕ
    → Memory
    → Retained
    → ℕ
    → List Message
    → Retained × Result WriterError (Unit {0})
decide_all p limit rounds origin s t index [] = (t, ok tt)
decide_all p limit rounds origin s t index (m ∷ ms) =
    let rest = λ (next : Retained). decide_all p limit rounds origin s next (suc index) ms in
    or_stop t (decide_one p limit (rounds index) origin s t m) rest

-- The plan for one chat.
unfoldable pub plan_for : Policy → ℕ → Round → ℕ → Memory → ChatId → Result WriterError PrunePlan
plan_for p limit r origin s id = do
  seen ← survey s limit r id
  from_model (
      plan_prune p seen.0
        (record { now = r.now; newer_bodies = pos 0; usage = seen.1; origin = origin }))

-- One round of the last loop.
unfoldable pub prune_chat :
    Policy → ℕ → Round → ℕ → Memory → ChatId → Memory × Result WriterError (Unit {0})
prune_chat p limit r origin s id = or_return s (plan_for p limit r origin s id) (λ plan.
    let pruned = apply_prune s r.at_prune plan in
    (pruned.0, from_store pruned.1 >>= λ result. ok tt))

unfoldable pub prune_chats :
    Policy → ℕ → (ℕ → Round) → ℕ → Memory → ℕ → List ChatId → Memory × Result WriterError (Unit {0})
prune_chats p limit rounds origin s index [] = (s, ok tt)
prune_chats p limit rounds origin s index (id ∷ ids) =
    let first = prune_chat p limit (rounds index) origin s id in
    or_return first.0 first.1 (λ done. prune_chats p limit rounds origin first.0 (suc index) ids)

-- `Write` and `WriteRealtime` of the store.
unfoldable pub write_retained :
    Memory → Context → ℕ → List Message → Result WriterError (List LiveEvent × Memory)
write_retained s context origin [] = ok ([], s)
write_retained s context origin (m ∷ ms) = do
  filtered ← from_model (new_write_batch origin (m ∷ ms))
  from_store (
      if origin == write_realtime
      then write_realtime_batch s context filtered
      else write_batch s context filtered false)

-- The five results: how many messages were kept and discarded, the committed events, whether the batch
-- was written, and the error.
pub record Applied : Type 0 where
  pub retained : ℕ
  pub discarded : ℕ
  pub committed : List LiveEvent
  pub written : Bool
  pub failure : Result WriterError (Unit {0})

abbrev pub failed : ℕ → WriterError → Applied
failed discarded e = record {
  retained = 0;
  discarded = discarded;
  committed = [];
  written = false;
  failure = err e;
}

-- Behind the first loop. The three parts of a batch read the context on their own.
unfoldable pub apply_written :
    Policy
    → ℕ
    → (ℕ → Round)
    → ℕ
    → Memory
    → Retained
    → Result WriterError (List LiveEvent × Memory)
    → Memory × Applied
apply_written p limit prunes origin s t (err e) = (s, failed t.discarded e)
apply_written p limit prunes origin s t (ok written) =
    let pruned = prune_chats p limit prunes origin written.1 0 t.chats in
    (
      pruned.0,
      record {
        retained = length t.messages;
        discarded = t.discarded;
        committed = written.0;
        written = ltb 0 (length t.messages);
        failure = pruned.1;
      },
    )

unfoldable pub apply_decided :
    Policy
    → ℕ
    → (ℕ → Round)
    → Context
    → ℕ
    → Memory
    → Retained × Result WriterError (Unit {0})
    → Memory × Applied
apply_decided p limit prunes at_write origin s (t, err e) = (s, failed t.discarded e)
apply_decided p limit prunes at_write origin s (t, ok done) =
    apply_written p limit prunes origin s t (write_retained s at_write origin t.messages)

abbrev pub nothing_retained : Retained
nothing_retained = record { messages = []; chats = []; discarded = 0 }

unfoldable pub apply_bounded_batch :
    Policy → ℕ → (ℕ → Round) → Context → (ℕ → Round) → Memory → WriteBatch → Memory × Applied
apply_bounded_batch p limit decisions at_write prunes s batch =
    apply_decided p limit prunes at_write batch.origin s
      (decide_all p limit decisions batch.origin s nothing_retained 0 batch.messages)
