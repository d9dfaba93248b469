-- ===== src/Store/Write/Room.antt =====
-- The room of a chat: its messages, and the new identifiers that are not among them.
use walite.Base.{
  ℕ, suc, ◌+◌, ◌≤◌, ◌<◌, ◌≡◌, ap, ◌∙◌, subst, true, ◌&&◌, Bool-cases, Option-cases, inl, inr, List,
  [], ◌∷◌, Bytes, bytes_eq, bytes_eq-eq, bytes_eq_refl, length, &&-true_iff, Option, none, some,
  arith, if◌then◌else◌, ltb,
}
use walite.Assoc.{
  Assoc, lookup, insert, All-lookup, lookup-insert, length-insert_new, length-insert_old,
}
use walite.Model.Message.{Message}
use walite.Model.Retention.{max_retention_snapshot_summaries}
use walite.Store.Memory.{Memory}
use walite.Store.Memory.Invariant.{IsMemory, IsChatEntry}
use walite.Store.Stage.{contains_pair, new_count, stored_count, has_room}

abbrev pub is_absent : Option Message → ℕ
is_absent none = 1
is_absent (some m) = 0

-- How many of the new identifiers of the chat have no message yet.
unfoldable pub absent_count : Bytes → List (Bytes × Bytes) → Assoc Message → ℕ
absent_count k [] es = 0
absent_count k ((j, i) ∷ ps) es =
    (if bytes_eq j k then is_absent (lookup i es) else 0) + absent_count k ps es

abbrev pub Fits : List (Bytes × Bytes) → Bytes → Assoc Message → Type 0
Fits new k es = length es + absent_count k new es ≤ max_retention_snapshot_summaries

pub absent_count-le :
    (k : Bytes) (ps : List (Bytes × Bytes)) (es : Assoc Message)
    → absent_count k ps es ≤ new_count k ps
unfolding absent_count new_count
absent_count-le k [] es = omega arith
absent_count-le k ((j, i) ∷ ps) es = ground (arith, absent_count-le k ps es)

absent-insert :
    (i j : Bytes) (m : Message) (es : Assoc Message)
    → is_absent (lookup j (insert i m es)) ≤ is_absent (lookup j es)
absent-insert i j m es = elim (Bool-cases (bytes_eq i j)) [
  | inl e ↦ rw (lookup-insert i j m es, e) (omega arith)
  | inr e ↦ rw (lookup-insert i j m es, e) (omega arith)
]

absent_count-insert_le :
    (k i : Bytes) (m : Message) (ps : List (Bytes × Bytes)) (es : Assoc Message)
    → absent_count k ps (insert i m es) ≤ absent_count k ps es
unfolding absent_count
absent_count-insert_le k i m [] es = omega arith
absent_count-insert_le k i m ((j, h) ∷ ps) es =
    ground (arith, absent-insert i h m es, absent_count-insert_le k i m ps es)

absent_count-insert_lt :
    (k i : Bytes) (m : Message) (ps : List (Bytes × Bytes)) (es : Assoc Message)
    → contains_pair k i ps ≡ true
    → lookup i es ≡ none
    → suc (absent_count k ps (insert i m es)) ≤ absent_count k ps es
unfolding absent_count
absent_count-insert_lt k i m [] es c e = cc
absent_count-insert_lt k i m ((j, h) ∷ ps) es c e =
    elim (Bool-cases (bytes_eq j k && bytes_eq h i)) [
      | inl here ↦
          let (same_chat, same_id) = (&&-true_iff (bytes_eq j k) (bytes_eq h i)).0 here in
          let id = bytes_eq-eq h i same_id in
          let before : is_absent (lookup h es) ≡ 1 =
            ap (λ t. is_absent (lookup t es)) id ∙ ap is_absent e in
          let after : is_absent (lookup h (insert i m es)) ≡ 0 =
            ap is_absent (lookup-insert i h m es)
            ∙ rw (ap (λ t. bytes_eq i t) id ∙ bytes_eq_refl i) in
          rw (same_chat, before, after) (omega (arith, absent_count-insert_le k i m ps es))
      | inr there ↦
          ground
            (arith, absent-insert i h m es, absent_count-insert_lt k i m ps es (ground arith) e)
    ]

-- To store a message under an identifier that is new, or under one that is there, keeps the room.
pub insert-Fits :
    (new : List (Bytes × Bytes)) (k i : Bytes) (m : Message) (es : Assoc Message)
    → (lookup i es ≡ none → contains_pair k i new ≡ true)
    → Fits new k es
    → Fits new k (insert i m es)
insert-Fits new k i m es f h = elim (Option-cases (lookup i es)) [
  | inl absent ↦ omega (
    arith,
    length-insert_new i m es absent,
    absent_count-insert_lt k i m new es (f absent) absent,
  )
  | inr (n, there) ↦
      omega (arith, length-insert_old i m n es there, absent_count-insert_le k i m new es)
]

-- What the test of the capacities establishes.
has_room-bound :
    (s : Memory) (all ps : List (Bytes × Bytes)) (k : Bytes)
    → has_room s all ps ≡ true
    → 0 < new_count k ps
    → stored_count (lookup k s.chats) + new_count k all ≤ max_retention_snapshot_summaries
unfolding has_room new_count
has_room-bound s all [] k h some_new = absurd (omega arith)
has_room-bound s all ((j, i) ∷ ps) k h some_new = elim (Bool-cases (bytes_eq j k)) [
  | inl e ↦
      subst
        (λ t. stored_count (lookup t s.chats) + new_count t all ≤ max_retention_snapshot_summaries)
        (bytes_eq-eq j k e) (ground arith)
  | inr e ↦ has_room-bound s all ps k (ground arith) (ground arith)
]

stored_count-bounded :
    (s : Memory) (k : Bytes)
    → IsMemory s
    → stored_count (lookup k s.chats) ≤ max_retention_snapshot_summaries
stored_count-bounded s k v = elim (Option-cases (lookup k s.chats)) [
  | inl absent ↦ rw absent (omega arith)
  | inr (c, there) ↦ rw there (All-lookup IsChatEntry k s.chats v.entries there).bounded
]

pub room-bound :
    (s : Memory) (new : List (Bytes × Bytes)) (k : Bytes)
    → IsMemory s
    → has_room s new new ≡ true
    → stored_count (lookup k s.chats) + new_count k new ≤ max_retention_snapshot_summaries
room-bound s new k v h = elim (Bool-cases (ltb 0 (new_count k new))) [
  | inl some_new ↦ has_room-bound s new new k h (ground arith)
  | inr none_new ↦ ground (arith, stored_count-bounded s k v)
]
