-- ===== src/Store/Prune/Count.antt =====
-- How many messages the loop of `ApplyPrune` counts as deleted.
use walite.Base.{
  ◌+◌, ◌≡◌, refl, ◌∙◌, false, List, [], ◌∷◌, Bytes, bytes_eq, length, All, All-zip, All-const,
  AllPairs, some, arith,
}
use walite.Assoc.{Assoc, lookup, HasUniqueKeys, lookup-erase_ne}
use walite.Model.Identifier.{MessageId}
use walite.Model.Message.{Message}
use walite.Store.Prune.{Deletion, contains_id, delete_step, delete_found, delete_all}
use walite.Store.Prune.Delete.{IsDeletion, delete_step-present}

delete_step-there :
    (d : Deletion) (key : Bytes) (m : Message)
    → contains_id d.seen key ≡ false
    → lookup key d.messages ≡ some m
    → delete_step d key ≡ delete_found d key (some m)
unfolding delete_step
delete_step-there d key m e f = rw (e, f)

-- Identifiers that are not named yet, and those of messages that are there.
abbrev Unseen : Deletion → MessageId → Type 0
Unseen d i = contains_id d.seen i.value ≡ false

abbrev pub IsThere : Assoc Message → MessageId → Type 0
IsThere es i = (m : Message) × (lookup i.value es ≡ some m)

abbrev pub AreDistinct : MessageId → MessageId → Type 0
AreDistinct i j = bytes_eq i.value j.value ≡ false

-- Distinct identifiers of messages that are there are all counted.
delete_all-count_from :
    (d : Deletion) (ids : List MessageId)
    → IsDeletion d
    → All (Unseen d) ids
    → All (IsThere d.messages) ids
    → AllPairs AreDistinct ids
    → (delete_all d ids).deleted ≡ d.deleted + length ids
unfolding delete_all
delete_all-count_from d [] v fresh there apart = omega arith
delete_all-count_from d (id ∷ ids) v fresh there apart =
    let (m, here) = there.0 in
    let found = delete_found d id.value (some m) in
    let (next, first) = delete_step-present d id.value m v here in
    let unseen =
      All-zip (Unseen d) (AreDistinct id) (Unseen found) (λ i e f. rw (f, e)) ids fresh.1 apart.0 in
    let left =
      All-zip (IsThere d.messages) (AreDistinct id) (IsThere found.messages)
        (λ i e f. (e.0, lookup-erase_ne id.value i.value d.messages f ∙ e.1)) ids there.1 apart.0 in
    rw (delete_all, delete_step-there d id.value m fresh.0 here)
      (omega (arith, delete_all-count_from found ids next unseen left apart.1))

pub delete_all-count :
    (es : Assoc Message) (ids : List MessageId)
    → HasUniqueKeys es
    → All (IsThere es) ids
    → AllPairs AreDistinct ids
    → (delete_all (record { messages = es; deleted = 0; bodies = 0; seen = [] }) ids).deleted
      ≡ length ids
delete_all-count es ids u there apart =
    let d : Deletion = record { messages = es; deleted = 0; bodies = 0; seen = [] } in
    omega (
      arith,
      delete_all-count_from d ids (record { unique = u; seen = tt })
          (All-const (Unseen d) (λ i. refl) ids) there apart,
    )
