-- ===== src/Store/Page/Step.antt =====
-- One page of a chat: what it holds, and where the next one begins.
use walite.Base.{
  ℕ, zero, suc, ◌<◌, ◌≡◌, refl, sym, ap, ◌∙◌, Bool, true, false, Bool-cases, ◌||◌, inl, inr, List,
  [], ◌∷◌, length, take, drop, get_elem?, filter_by, filter_by-All, filter_by-filter_by,
  filter_by-sort_by, All, All-get, All-sort_by, All-filter_by, AllPairs, AllPairs-filter_by,
  IsSorted, sort_by, sort_by-IsSorted, some, ok, arith,
}
use walite.Model.Time.{is_zero}
use walite.Model.Identifier.Laws.{IsIdentifier, new_message_id-ok}
use walite.Model.Message.{Message}
use walite.Model.Anchor.{Cursor, is_no_cursor, new_cursor}
use walite.Store.Memory.Invariant.{HaveOtherIds}
use walite.Store.Page.{newer, older_than, behind, cut, last_of, validate_cursor}
use walite.Store.Page.Order.{
  at, older_than-at, older_than-through, newer_irrefl, newer_asymm, newer_chain, Newer,
  sort_by-Newer,
}

abbrev pub IsBehind : Cursor → Message → Type 0
IsBehind c m = (is_no_cursor c || older_than m c) ≡ true

pub behind-IsBehind : (c : Cursor) (ms : List Message) → All (IsBehind c) (behind c ms)
unfolding behind
behind-IsBehind c ms =
    All-sort_by newer (IsBehind c) (filter_by (λ m. is_no_cursor c || older_than m c) ms)
      (filter_by-All (λ m. is_no_cursor c || older_than m c) ms)

pub behind-All {κ} :
    (P : Message → Type κ) (c : Cursor) (ms : List Message) → All P ms → All P (behind c ms)
unfolding behind
behind-All P c ms h =
    All-sort_by newer P (filter_by (λ m. is_no_cursor c || older_than m c) ms)
      (All-filter_by P (λ m. is_no_cursor c || older_than m c) ms h)

pub behind-IsSorted : (c : Cursor) (ms : List Message) → IsSorted newer (behind c ms)
unfolding behind
behind-IsSorted c ms =
    sort_by-IsSorted newer newer_asymm newer_chain
      (filter_by (λ m. is_no_cursor c || older_than m c) ms)

pub behind-Newer :
    (c : Cursor) (ms : List Message) → AllPairs HaveOtherIds ms → AllPairs Newer (behind c ms)
unfolding behind
behind-Newer c ms h =
    sort_by-Newer (filter_by (λ m. is_no_cursor c || older_than m c) ms)
      (AllPairs-filter_by HaveOtherIds (λ m. is_no_cursor c || older_than m c) ms h)

filter_by-tail : (m : Message) (ms : List Message) → All (Newer m) ms → filter_by (newer m) ms ≡ ms
filter_by-tail m [] h = refl
filter_by-tail m (n ∷ ms) h = rw (h.0, filter_by-tail m ms h.1)

-- The last message of a page, in a list that stands strictly newest first: those that it is newer than
-- are what follows the page.
pub page_end :
    (k : ℕ) (ms : List Message)
    → k < length ms
    → AllPairs Newer ms
    → (m : Message) × (last_of (take (suc k) ms) ≡ some m)
      × (get_elem? ms k ≡ some m)
      × (filter_by (newer m) ms ≡ drop (suc k) ms)
page_end k [] few h = absurd (omega arith)
page_end zero (x ∷ ms) few h = (x, refl, refl, rw (newer_irrefl x) (filter_by-tail x ms h.0))
page_end (suc k) (x ∷ []) few h = absurd (omega arith)
page_end (suc k) (x ∷ y ∷ ms) few h =
    let (m, last, there, rest) = page_end k (y ∷ ms) (omega arith) h.1 in
    let after = newer_asymm x m (All-get (Newer x) (y ∷ ms) k h.0 there) in
    (m, last, there, rw after rest)

filter_by-eq :
    (p q : Message → Bool)
    → ((m : Message) → p m ≡ q m)
    → (ms : List Message) → filter_by p ms ≡ filter_by q ms
filter_by-eq p q e [] = refl
filter_by-eq p q e (m ∷ ms) = rw (e m, filter_by-eq p q e ms)

IsBehind-through : (m n : Message) (c : Cursor) → IsBehind c n → newer n m ≡ true → IsBehind c m
IsBehind-through m n c h k = elim (Bool-cases (is_no_cursor c)) [
  | inl e ↦ rw e
  | inr e ↦ rw e (older_than-through m n c k (ground arith))
]

-- What is behind a message that is behind the cursor.
pub behind-at :
    (n : Message) (c : Cursor) (ms : List Message)
    → is_zero n.sent_at ≡ false
    → IsBehind c n
    → behind (at n) ms ≡ filter_by (newer n) (behind c ms)
unfolding behind
behind-at n c ms sent h =
    ap (sort_by newer) (
      filter_by-eq (λ m. is_no_cursor (at n) || older_than m (at n)) (newer n)
        (λ m. rw (sent, older_than-at m n)) ms
      ∙ sym (
          filter_by-filter_by (newer n) (λ m. is_no_cursor c || older_than m c)
            (λ m k. IsBehind-through m n c h k) ms))
    ∙ sym (
        filter_by-sort_by newer newer_asymm newer_chain (newer n)
          (filter_by (λ m. is_no_cursor c || older_than m c) ms))

-- What a message must be for a cursor at it.
pub record IsPageable (m : Message) : Type 0 where
  pub id_valid : IsIdentifier m.message_id.value
  pub sent : is_zero m.sent_at ≡ false

pub new_cursor-at : (m : Message) → IsPageable m → new_cursor m.sent_at m.message_id ≡ ok (at m)
unfolding new_cursor
new_cursor-at m v = rw (v.sent, new_message_id-ok m.message_id v.id_valid)

pub validate_cursor-at : (m : Message) → IsPageable m → validate_cursor (at m) ≡ ok tt
unfolding validate_cursor
validate_cursor-at m v = rw (v.sent, new_cursor-at m v)

-- A page that is not the last one ends at a cursor, and behind that cursor is what the page left.
pub cut-more :
    (k : ℕ) (c : Cursor) (ms : List Message)
    → suc k < length (behind c ms)
    → AllPairs HaveOtherIds ms
    → All IsPageable ms
    → (m : Message) × IsPageable m
      × (cut (suc k) (behind c ms) ≡ (take (suc k) (behind c ms), at m))
      × (behind (at m) ms ≡ drop (suc k) (behind c ms))
cut-more k c ms more apart valid =
    let (m, last, there, rest) = page_end k (behind c ms) (omega arith) (behind-Newer c ms apart) in
    let v = All-get IsPageable (behind c ms) k (behind-All IsPageable c ms valid) there in
    (
      m,
      v,
      rw (last, new_cursor-at m v) (ground arith),
      behind-at m c ms v.sent (All-get (IsBehind c) (behind c ms) k (behind-IsBehind c ms) there)
          ∙ rest,
    )
