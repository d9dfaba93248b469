-- ===== src/Store/Prune/Delete.antt =====
-- The loop of `ApplyPrune`: which messages it leaves, and what it counts.
use walite.Base.{
  subst, ℕ, ◌+◌, ◌≡◌, refl, sym, ap, ◌∙◌, Bool, true, false, ◌||◌, Bool-cases, Option-cases, inl,
  inr, List, [], ◌∷◌, map, Bytes, bytes_eq, bytes_eq-eq, length, All, All-imp, Option, none, some,
  arith, if◌then◌else◌,
}
use walite.Assoc.{
  Assoc, lookup, erase, HasUniqueKeys, lookup-erase_ne, lookup-erase_self, erase-HasUniqueKeys,
  length-erase,
}
use walite.Model.Identifier.{MessageId}
use walite.Model.Message.{Message}
use walite.Store.Prune.{Deletion, contains_id, delete_step, delete_found, delete_all}

abbrev pub values : List MessageId → List Bytes
values ids = map (λ (i : MessageId). i.value) ids

abbrev pub body_count : Message → ℕ
body_count m = if m.body_retained then 1 else 0

-- The messages of a chat that have their bodies.
unfoldable pub retained_count : Assoc Message → ℕ
retained_count [] = 0
retained_count ((k, m) ∷ es) = body_count m + retained_count es

retained_count-erase :
    (k : Bytes) (es : Assoc Message) (m : Message)
    → lookup k es ≡ some m
    → body_count m + retained_count (erase k es) ≡ retained_count es
unfolding retained_count lookup erase
retained_count-erase k [] m h = cc
retained_count-erase k ((j, n) ∷ es) m h = elim (Bool-cases (bytes_eq j k)) [
  | inl e ↦ let here : n ≡ m = ground arith in rw (e, here)
  | inr e ↦ rw e (omega (arith, retained_count-erase k es m (ground arith)))
]

lookup-absent :
    (i k : Bytes) (es : Assoc Message)
    → lookup i es ≡ none
    → lookup k es ≡ (if bytes_eq i k then none else lookup k es)
lookup-absent i k es h = elim (Bool-cases (bytes_eq i k)) [
  | inl e ↦ rw e (ap (λ t. lookup t es) (sym (bytes_eq-eq i k e)) ∙ h)
  | inr e ↦ rw e
]

lookup-erase :
    (i k : Bytes) (es : Assoc Message)
    → HasUniqueKeys es
    → lookup k (erase i es) ≡ (if bytes_eq i k then none else lookup k es)
lookup-erase i k es u = elim (Bool-cases (bytes_eq i k)) [
  | inl e ↦
      rw e (ap (λ t. lookup t (erase i es)) (sym (bytes_eq-eq i k e)) ∙ lookup-erase_self i es u)
  | inr e ↦ rw e (lookup-erase_ne i k es e)
]

or_false : (b : Bool) → b ≡ (b || false)
or_false b = ground arith

abbrev absent_message : Option Message
absent_message = none

if-none : (b : Bool) → (if b then absent_message else absent_message) ≡ absent_message
if-none b = ground arith

All-contains_id {κ} :
    (P : Bytes → Type κ) (ks : List Bytes) (k : Bytes) → All P ks → contains_id ks k ≡ true → P k
All-contains_id P [] k h e = cc
All-contains_id P (j ∷ ks) k h e = elim (Bool-cases (bytes_eq j k)) [
  | inl here ↦ subst P (bytes_eq-eq j k here) h.0
  | inr there ↦ All-contains_id P ks k h.1 (ground arith)
]

-- Between two rounds: what was looked at is gone.
pub record IsDeletion (d : Deletion) : Type 0 where
  pub unique : HasUniqueKeys d.messages
  pub seen : All (λ k. lookup k d.messages ≡ none) d.seen

-- What a loop that names these keys leaves of a chat, and counts.
pub record Deleted (ks : List Bytes) (d r : Deletion) : Type 0 where
  pub lookups :
      (k : Bytes) → lookup k r.messages ≡ (if contains_id ks k then none else lookup k d.messages)
  pub rows : r.deleted + length r.messages ≡ d.deleted + length d.messages
  pub bodies : r.bodies + retained_count r.messages ≡ d.bodies + retained_count d.messages

Deleted-none :
    (d : Deletion) (key : Bytes) (seen : List Bytes)
    → lookup key d.messages ≡ none
    → Deleted (key ∷ []) d (record d { seen = seen })
Deleted-none d key seen h = record {
  lookups = λ k.
      lookup-absent key k d.messages h
      ∙ ap (λ b. if b then none else lookup k d.messages) (or_false (bytes_eq key k));
  rows = refl;
  bodies = refl;
}

pub delete_step-present :
    (d : Deletion) (key : Bytes) (m : Message)
    → IsDeletion d
    → lookup key d.messages ≡ some m
    → IsDeletion (delete_found d key (some m)) × Deleted (key ∷ []) d (delete_found d key (some m))
delete_step-present d key m v h =
    let gone = lookup-erase_self key d.messages v.unique in
    (
      record {
        unique = erase-HasUniqueKeys key d.messages v.unique;
        seen = (
          gone,
          All-imp (λ k. lookup k d.messages ≡ none) (λ k. lookup k (erase key d.messages) ≡ none)
              (λ k e. lookup-erase key k d.messages v.unique ∙ rw e (if-none (bytes_eq key k)))
              d.seen v.seen,
        );
      },
      record {
        lookups = λ k.
            lookup-erase key k d.messages v.unique
            ∙ ap (λ b. if b then none else lookup k d.messages) (or_false (bytes_eq key k));
        rows = omega (arith, length-erase key d.messages m h);
        bodies = counted m.body_retained (retained_count-erase key d.messages m h);
      },
    )
  where
    counted :
        (b : Bool)
        → (if b then 1 else 0) + retained_count (erase key d.messages) ≡ retained_count d.messages
        → (if b then d.bodies + 1 else d.bodies) + retained_count (erase key d.messages)
          ≡ d.bodies + retained_count d.messages
    counted b e = ground arith

pub delete_step-Deleted :
    (d : Deletion) (key : Bytes)
    → IsDeletion d
    → IsDeletion (delete_step d key) × Deleted (key ∷ []) d (delete_step d key)
unfolding delete_step
delete_step-Deleted d key v = elim (Bool-cases (contains_id d.seen key)) [
  | inl e ↦ rw e (
    v,
    Deleted-none d key d.seen
        (All-contains_id (λ k. lookup k d.messages ≡ none) d.seen key v.seen e),
  )
  | inr e ↦ elim (Option-cases (lookup key d.messages)) [
    | inl absent ↦
        rw (e, absent)
          (
            record { unique = v.unique; seen = (absent, v.seen) },
            Deleted-none d key (key ∷ d.seen) absent,
          )
    | inr (m, there) ↦ rw (e, there) (delete_step-present d key m v there)
  ]
]

Deleted-through :
    (key : Bytes) (ks : List Bytes) (d r t : Deletion)
    → Deleted (key ∷ []) d r
    → Deleted ks r t
    → Deleted (key ∷ ks) d t
Deleted-through key ks d r t g h = record {
  lookups = λ k.
      h.lookups k
      ∙ rw (g.lookups k) (merged (bytes_eq key k) (contains_id ks k) (lookup k d.messages));
  rows = omega (arith, g.rows, h.rows);
  bodies = omega (arith, g.bodies, h.bodies);
}
  where
    merged :
        (a b : Bool) (o : Option Message)
        → (if b then none else if (a || false) then none else o) ≡ (if (a || b) then none else o)
    merged a b o = ground arith

-- The loop leaves what the identifiers do not name, and nothing else.
pub delete_all-Deleted :
    (d : Deletion) (ids : List MessageId) → IsDeletion d → Deleted (values ids) d (delete_all d ids)
unfolding delete_all
delete_all-Deleted d [] v = record { lookups = λ k. refl; rows = refl; bodies = refl }
delete_all-Deleted d (id ∷ ids) v =
    let (next, first) = delete_step-Deleted d id.value v in
    Deleted-through id.value (values ids) d (delete_step d id.value)
      (delete_all (delete_step d id.value) ids) first
      (delete_all-Deleted (delete_step d id.value) ids next)
