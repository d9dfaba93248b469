-- ===== src/Store/Page/Bounds.antt =====
-- What a page holds, wherever it begins.
use walite.Base.{
  ℕ, zero, suc, ◌≤◌, ◌≡◌, subst, ℤ, pos, negsuc, List, length, length-take, All, All-take,
  AllPairs-take, IsSorted, NotAfter, Option, ok, >>=-eq-ok, >>-eq-ok, some, none, arith,
}
use walite.Assoc.{lookup}
use walite.Model.Identifier.{ChatId, new_chat_id}
use walite.Model.Message.{Message}
use walite.Model.Anchor.{Cursor}
use walite.Store.Memory.{Memory, MemoryChat, Context, check_context, or_rejected}
use walite.Store.Page.{
  newer, behind, page, page_of, page_limit, all_messages, max_page_messages, validate_cursor,
}
use walite.Store.Page.Step.{IsBehind, behind-IsBehind, behind-IsSorted}

abbrev pub IsPage : Cursor → List Message → Type 0
IsPage cursor ms = (length ms ≤ max_page_messages) × IsSorted newer ms × All (IsBehind cursor) ms

page_of-IsPage :
    (c : Option MemoryChat) (cursor : Cursor) (limit : ℕ)
    → limit ≤ max_page_messages
    → IsPage cursor (page_of c cursor limit).0
unfolding page_of
page_of-IsPage none cursor limit h = (omega arith, tt, tt)
page_of-IsPage (some c) cursor limit h =
    let ordered = behind cursor (all_messages c) in
    (
      omega (arith, length-take limit ordered),
      AllPairs-take (NotAfter newer) limit ordered (behind-IsSorted cursor (all_messages c)),
      All-take (IsBehind cursor) limit ordered (behind-IsBehind cursor (all_messages c)),
    )

page_limit_le : (limit : ℤ) {n : ℕ} → page_limit limit ≡ ok n → n ≤ max_page_messages
unfolding page_limit
page_limit_le (pos zero) h = cc
page_limit_le (pos (suc k)) h = ground arith
page_limit_le (negsuc k) h = cc

-- A page that is read has at most 100 messages, newest first, all of them behind the cursor.
pub page-IsPage :
    (s : Memory) (context : Context) (id : ChatId) (cursor : Cursor) (limit : ℤ) {ms : List Message}
    {next : Cursor}
    → page s context id cursor limit ≡ ok (ms, next)
    → IsPage cursor ms
unfolding page
page-IsPage s context id cursor limit {ms} {next} h =
    let (running, h1) = >>-eq-ok (check_context context) _ h in
    let (owned, made, h2) = >>=-eq-ok (or_rejected (new_chat_id id.value)) _ h1 in
    let (cursor_ok, h3) = >>-eq-ok (or_rejected (validate_cursor cursor)) _ h2 in
    let (bound, bounded, h4) = >>=-eq-ok (page_limit limit) _ h3 in
    subst (λ p. IsPage cursor p) (ground arith)
      (page_of-IsPage (lookup owned.value s.chats) cursor bound (page_limit_le limit bounded))
