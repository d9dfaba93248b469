-- ===== src/Store/Page/Walk.antt =====
-- A reader who follows the cursors of `Page` from the newest message on.
use walite.Base.{
  ℕ, zero, suc, ◌<◌, ◌≡◌, refl, sym, ap, subst, ◌∙◌, pos, Bool-cases, ◌||◌, inl, inr, List, [], ◌∷◌,
  Bytes, ◌++◌, length, length-append, length-take, length-map, length-sort_by, take, drop, take-all,
  take-append-drop, All, AllPairs, sort_by, filter_by, Result, ok, err, ◌>>=◌, some, arith, ltb,
  if◌then◌else◌,
}
use walite.Model.Retention.{max_retention_snapshot_summaries}
use walite.Assoc.{Assoc, lookup, All-lookup}
use walite.Model.Identifier.{ChatId}
use walite.Model.Identifier.Laws.{IsIdentifier, new_chat_id-ok}
use walite.Model.Message.{Message}
use walite.Model.Anchor.{Cursor, is_no_cursor, no_cursor}
use walite.Store.Memory.{Memory, MemoryChat, StoreError, rejected, running, check_context}
use walite.Store.Memory.Invariant.{
  IsMemory, IsChatEntry, IsMessageEntry, HaveOtherIds, messages_of-AllPairs, messages_of,
}
use walite.Store.Page.{
  newer, older_than, behind, cut, page, page_of, page_limit, validate_cursor, all_messages,
  max_page_messages,
}
use walite.Store.Page.Order.{at}
use walite.Store.Page.Step.{IsPageable, cut-more, validate_cursor-at}

-- All messages of the chat behind the cursor, by as many pages as it takes; `fuel` bounds them.
unfoldable pub walk : ℕ → Memory → ChatId → Cursor → ℕ → Result StoreError (List Message)
walk zero s id cursor limit = err rejected
walk (suc fuel) s id cursor limit = do
  first ← page s running id cursor (pos limit)
  if is_no_cursor first.1
      then ok first.0
      else walk fuel s id first.1 limit >>= λ ms. ok (first.0 ++ ms)

abbrev page_size : ℕ → ℕ
page_size k = if ltb max_page_messages (suc k) then 99 else k

page-at :
    (s : Memory) (id : ChatId) (cursor : Cursor) (k : ℕ) (c : MemoryChat)
    → IsIdentifier id.value
    → validate_cursor cursor ≡ ok tt
    → lookup id.value s.chats ≡ some c
    → page s running id cursor (pos (suc k))
      ≡ ok (cut (suc (page_size k)) (behind cursor (all_messages c)))
unfolding page page_of page_limit check_context
page-at s id cursor k c valid vc there = elim (Bool-cases (ltb max_page_messages (suc k))) [
  | inl e ↦ rw (new_chat_id-ok id valid, vc, e, there)
  | inr e ↦ rw (new_chat_id-ok id valid, vc, e, there)
]

length-drop : (n : ℕ) (ms : List Message) → n < length ms → 0 < n → length (drop n ms) < length ms
length-drop n ms h p = omega (
  arith,
  length-take n ms,
  length-append (take n ms) (drop n ms),
  ap length (take-append-drop n ms),
)

module _ (s : Memory) (id : ChatId) (k : ℕ) (c : MemoryChat) (valid : IsIdentifier id.value)
    (there : lookup id.value s.chats ≡ some c) (apart : AllPairs HaveOtherIds (all_messages c))
    (pageable : All IsPageable (all_messages c)) where
  walk-behind :
      (fuel : ℕ) (cursor : Cursor)
      → validate_cursor cursor ≡ ok tt
      → length (behind cursor (all_messages c)) < fuel
      → walk fuel s id cursor (suc k) ≡ ok (behind cursor (all_messages c))
  unfolding walk
  walk-behind zero cursor vc enough = absurd (omega arith)
  walk-behind (suc fuel) cursor vc enough =
      let ordered = behind cursor (all_messages c) in
      elim (Bool-cases (ltb (suc (page_size k)) (length ordered))) [
        | inl more ↦
            let (m, v, here, rest) =
              cut-more (page_size k) cursor (all_messages c) (ground arith) apart pageable in
            rw
              (
                page-at s id cursor k c valid vc there ∙ ap ok here,
                v.sent,
                walk-behind fuel (at m) (validate_cursor-at m v) (
                    subst (λ l. length l < fuel) (sym rest)
                      (omega (
                        arith,
                        length-drop (suc (page_size k)) ordered (ground arith) (omega arith),
                      ))),
                rest,
              )
              (ap ok (take-append-drop (suc (page_size k)) ordered))
        | inr last ↦
            rw (page-at s id cursor k c valid vc there, last)
              (ap ok (take-all (suc (page_size k)) ordered (ground arith)))
      ]

IsMessageEntry-IsPageable :
    (key : Bytes) (es : Assoc Message)
    → All (IsMessageEntry key) es
    → All IsPageable (messages_of es)
IsMessageEntry-IsPageable key [] h = tt
IsMessageEntry-IsPageable key ((j, m) ∷ es) h = (
  record { id_valid = subst IsIdentifier (sym h.0.id) h.0.id_valid; sent = h.0.sent },
  IsMessageEntry-IsPageable key es h.1,
)

keep-all :
    (ms : List Message) → filter_by (λ m. is_no_cursor no_cursor || older_than m no_cursor) ms ≡ ms
keep-all [] = refl
keep-all (m ∷ ms) = ap (◌∷◌ m) (keep-all ms)

behind-no_cursor : (ms : List Message) → behind no_cursor ms ≡ sort_by newer ms
unfolding behind
behind-no_cursor ms = ap (sort_by newer) (keep-all ms)

validate_cursor-no_cursor : validate_cursor no_cursor ≡ ok tt
unfolding validate_cursor
validate_cursor-no_cursor = refl

-- A reader of a chat of a valid store who starts without a cursor and follows the cursors of pages
-- of any positive limit, for up to 552 pages, ends with all messages of the chat, newest first,
-- each once.
pub walk-all :
    (s : Memory) (id : ChatId) (limit fuel : ℕ) {c : MemoryChat}
    → IsMemory s
    → lookup id.value s.chats ≡ some c
    → 0 < limit
    → max_retention_snapshot_summaries < fuel
    → walk fuel s id no_cursor limit ≡ ok (sort_by newer (all_messages c))
walk-all s id zero fuel v there some_limit enough = absurd (omega arith)
walk-all s id (suc k) fuel {c} v there some_limit enough =
    let e = All-lookup IsChatEntry id.value s.chats v.entries there in
    let ms = all_messages c in
    walk-behind s id k c e.key_valid there
      (messages_of-AllPairs id.value c.messages e.unique e.entries)
      (IsMessageEntry-IsPageable id.value c.messages e.entries) fuel no_cursor
      validate_cursor-no_cursor
      (subst (λ l. length l < fuel) (sym (behind-no_cursor ms))
        (omega (
          arith,
          length-sort_by newer ms,
          length-map (λ (f : Bytes × Message). f.1) c.messages,
          e.bounded,
          enough,
        )))
    ∙ ap ok (behind-no_cursor ms)
