-- ===== src/Store/Memory/Errors.antt =====
-- An operation on a chat or a name that fails leaves the store as it is.
use walite.Base.{ℕ, get_or, arith, ◌≡◌, refl, Option, none, some, Result, ok, err, ◌>>◌}
use walite.Assoc.{lookup}
use walite.Model.Chat.{Chat}
use walite.Model.Display.{DisplayMetadata, merge_display, no_display, new_display_metadata}
use walite.Store.Memory.{
  Memory, MemoryChat, StoreError, Context, check_context, or_rejected, or_return, normalize_chat,
  ensure_at, ensure_chat, display_slot, display_index, apply_display_at, store_display,
  apply_display_metadata,
}

or_return-error {ℓ κ} :
    {E : Type 0} {A : Type ℓ} {B : Type κ} (s : Memory) (r : Result E A)
    (next : A → Memory × Result E B) {e : E}
    → ((a : A) → (next a).1 ≡ err e → (next a).0 ≡ s)
    → (or_return s r next).1 ≡ err e
    → (or_return s r next).0 ≡ s
unfolding or_return
or_return-error s (err f) next h k = refl
or_return-error s (ok a) next h k = h a k

ensure_at-error :
    (s : Memory) (c : Chat) (o : Option MemoryChat) {e : StoreError}
    → (ensure_at s c o).1 ≡ err e
    → (ensure_at s c o).0 ≡ s
unfolding ensure_at
ensure_at-error s c (some current) h = ground arith
ensure_at-error s c none h = ground arith

apply_display_at-error :
    (s : Memory) (i : ℕ) (d : DisplayMetadata) (o : Option MemoryChat) {e : StoreError}
    → (apply_display_at s i d o).1 ≡ err e
    → ⊥
unfolding apply_display_at
apply_display_at-error s i d none h = cc
apply_display_at-error s i d (some c) h = cc

-- Where `EnsureChat` fails, for whichever reason, the store is as it was.
pub ensure_chat-error :
    (s : Memory) (context : Context) (c : Chat) {e : StoreError}
    → (ensure_chat s context c).1 ≡ err e
    → (ensure_chat s context c).0 ≡ s
unfolding ensure_chat
ensure_chat-error s context c =
    or_return-error s (check_context context >> or_rejected (normalize_chat c))
      (λ n. ensure_at s n (lookup n.id.value s.chats))
      (λ n h. ensure_at-error s n (lookup n.id.value s.chats) h)

-- Where `ApplyDisplayMetadata` fails, the store is as it was.
pub apply_display_metadata-error :
    (s : Memory) (context : Context) (d : DisplayMetadata) {e : StoreError}
    → (apply_display_metadata s context d).1 ≡ err e
    → (apply_display_metadata s context d).0 ≡ s
unfolding apply_display_metadata store_display
apply_display_metadata-error s context d =
    or_return-error s
      (check_context context
        >> or_rejected (new_display_metadata d.id.value d.name d.quality d.group))
      (λ owned. store_display s owned)
      (λ owned h.
        let slot = display_slot s (display_index s.display owned.id.value) in
        let merged = merge_display (get_or slot.1.display slot.0 no_display) owned in
        absurd
          (apply_display_at-error slot.1 slot.0 merged (lookup merged.id.value slot.1.chats) h))
