-- ===== src/Store/Usage/Counts.antt =====
-- The usage against the sums that it stands for, where they fit an `int64`.
use walite.Base.{
  ℕ, ◌+◌, ◌≤◌, ◌≡◌, refl, ap, ◌∙◌, pos, Bool, true, Bool-cases, inl, inr, List, [], ◌∷◌, length,
  Option, none, some, ok, arith, if◌then◌else◌,
}
use walite.Assoc.{Assoc}
use walite.Model.Identifier.{is_empty}
use walite.Model.Message.{Message}
use walite.Model.Anchor.{MessageAnchor}
use walite.Model.Display.{DisplayMetadata, display_byte_size}
use walite.Model.Retention.{CacheUsage, new_cache_usage}
use walite.Store.Memory.{Memory, MemoryChat, running, check_context, or_invalid}
use walite.Store.Usage.{
  Tally, add_saturated, max_int64, add_display, add_messages, add_anchor, add_chats, tally, usage,
  message_envelope_bytes, chat_envelope_bytes, anchor_envelope_bytes,
}

abbrev display_charge : List DisplayMetadata → ℕ
display_charge [] = 0
display_charge (d ∷ ds) =
    (if is_empty d.id.value then 0 else 32 + display_byte_size d) + display_charge ds

abbrev message_charge : Assoc Message → ℕ
message_charge [] = 0
message_charge ((id, m) ∷ es) = 64 + m.byte_size + message_charge es

abbrev pub body_total : Assoc Message → ℕ
body_total [] = 0
body_total ((id, m) ∷ es) = (if m.body_retained then 1 else 0) + body_total es

abbrev anchor_charge : Option MessageAnchor → ℕ
anchor_charge none = 0
anchor_charge (some a) = 32 + length a.chat_id.value + length a.message_id.value

abbrev pub anchor_total : Option MessageAnchor → ℕ
anchor_total none = 0
anchor_total (some a) = 1

abbrev chat_charge : MemoryChat → ℕ
chat_charge c =
    64
    + length c.chat.id.value
    + length c.chat.display_name
    + message_charge c.messages
    + anchor_charge c.anchor

-- The four sums over the chats.
abbrev pub sum_over : (MemoryChat → ℕ) → Assoc MemoryChat → ℕ
sum_over f [] = 0
sum_over f ((key, c) ∷ cs) = f c + sum_over f cs

abbrev pub charge : Memory → ℕ
charge s = display_charge s.display + sum_over chat_charge s.chats

-- `r` has that much more than `t`.
record Adds (t r : Tally) (x m b a : ℕ) : Type 0 where
  pub bytes : r.bytes ≡ t.bytes + x
  pub messages : r.messages ≡ t.messages + m
  pub bodies : r.bodies ≡ t.bodies + b
  pub anchors : r.anchors ≡ t.anchors + a

add_saturated-fits : (l r : ℕ) → l + r ≤ max_int64 → add_saturated l r ≡ l + r
unfolding add_saturated
add_saturated-fits l r h = ground arith

add_display-fits :
    (bytes : ℕ) (ds : List DisplayMetadata)
    → bytes + display_charge ds ≤ max_int64
    → add_display bytes ds ≡ bytes + display_charge ds
unfolding add_display
add_display-fits bytes [] h = omega arith
add_display-fits bytes (d ∷ ds) h = elim (Bool-cases (is_empty d.id.value)) [
  | inl e ↦ rw e (
      add_display-fits bytes ds
        (omega (arith, ap (λ b. if b then 0 else 32 + display_byte_size d) e))
      ∙ omega arith)
  | inr e ↦
      let part = ap (λ b. if b then 0 else 32 + display_byte_size d) e in
      rw (e, add_saturated-fits bytes (32 + display_byte_size d) (omega (arith, part)))
        (add_display-fits (bytes + (32 + display_byte_size d)) ds (omega (arith, part))
          ∙ omega arith)
]

add_messages-Adds :
    (t : Tally) (es : Assoc Message)
    → t.bytes + message_charge es ≤ max_int64
    → Adds t (add_messages t es) (message_charge es) (length es) (body_total es) 0
unfolding add_messages
add_messages-Adds t [] h = record {
  bytes = omega arith;
  messages = omega arith;
  bodies = omega arith;
  anchors = omega arith;
}
add_messages-Adds t ((id, m) ∷ es) h =
    let fits = add_saturated-fits t.bytes (message_envelope_bytes + m.byte_size) (omega arith) in
    let next : Tally = record t {
      bytes = add_saturated t.bytes (message_envelope_bytes + m.byte_size);
      messages = t.messages + 1;
      bodies = if m.body_retained then t.bodies + 1 else t.bodies;
    } in
    let rest = add_messages-Adds next es (omega (arith, fits)) in
    record {
      bytes = omega (arith, rest.bytes, fits);
      messages = omega (arith, rest.messages);
      bodies = rest.bodies ∙ counted m.body_retained;
      anchors = omega (arith, rest.anchors);
    }
  where
    counted :
        (b : Bool)
        → (if b then t.bodies + 1 else t.bodies) + body_total es
          ≡ t.bodies + ((if b then 1 else 0) + body_total es)
    counted b = ground arith

add_anchor-Adds :
    (t : Tally) (o : Option MessageAnchor)
    → t.bytes + anchor_charge o ≤ max_int64
    → Adds t (add_anchor t o) (anchor_charge o) 0 0 (anchor_total o)
add_anchor-Adds t none h = record {
  bytes = omega arith;
  messages = omega arith;
  bodies = omega arith;
  anchors = omega arith;
}
add_anchor-Adds t (some a) h =
    let fits =
      add_saturated-fits t.bytes
        (anchor_envelope_bytes + length a.chat_id.value + length a.message_id.value)
        (omega arith) in
    record {
      bytes = omega (arith, fits);
      messages = omega arith;
      bodies = omega arith;
      anchors = refl;
    }

add_chats-Adds :
    (t : Tally) (cs : Assoc MemoryChat)
    → t.bytes + sum_over chat_charge cs ≤ max_int64
    → Adds t
        (add_chats t cs)
        (sum_over chat_charge cs)
        (sum_over (λ c. length c.messages) cs)
        (sum_over (λ c. body_total c.messages) cs)
        (sum_over (λ c. anchor_total c.anchor) cs)
unfolding add_chats
add_chats-Adds t [] h = record {
  bytes = omega arith;
  messages = omega arith;
  bodies = omega arith;
  anchors = omega arith;
}
add_chats-Adds t ((key, c) ∷ cs) h =
    let part = chat_envelope_bytes + length c.chat.id.value + length c.chat.display_name in
    let fits = add_saturated-fits t.bytes part (omega arith) in
    let first : Tally = record t { bytes = add_saturated t.bytes part } in
    let a = add_messages-Adds first c.messages (omega (arith, fits)) in
    let second = add_messages first c.messages in
    let b = add_anchor-Adds second c.anchor (omega (arith, fits, a.bytes)) in
    let third = add_anchor second c.anchor in
    let rest = add_chats-Adds third cs (omega (arith, fits, a.bytes, b.bytes)) in
    record {
      bytes = omega (arith, rest.bytes, b.bytes, a.bytes, fits);
      messages = omega (arith, rest.messages, b.messages, a.messages);
      bodies = omega (arith, rest.bodies, b.bodies, a.bodies);
      anchors = omega (arith, rest.anchors, b.anchors, a.anchors);
    }

pub new_cache_usage-pos :
    (a b c d e : ℕ)
    → new_cache_usage (pos a) (pos b) (pos c) (pos d) (pos e)
      ≡ ok (record {
        estimated_bytes = pos a;
        chats = pos b;
        messages = pos c;
        bodies = pos d;
        anchors = pos e;
        constructed = true;
      })
unfolding new_cache_usage
new_cache_usage-pos a b c d e = ground arith

-- The estimate of a store whose size fits.
abbrev pub summed : Memory → CacheUsage
summed s = record {
  estimated_bytes = pos (charge s);
  chats = pos (length s.chats);
  messages = pos (sum_over (λ c. length c.messages) s.chats);
  bodies = pos (sum_over (λ c. body_total c.messages) s.chats);
  anchors = pos (sum_over (λ c. anchor_total c.anchor) s.chats);
  constructed = true;
}

abbrev no_count : Tally
no_count = record { bytes = 0; messages = 0; bodies = 0; anchors = 0 }

tally-Adds :
    (s : Memory)
    → charge s ≤ max_int64
    → Adds no_count
        (tally s)
        (charge s)
        (sum_over (λ c. length c.messages) s.chats)
        (sum_over (λ c. body_total c.messages) s.chats)
        (sum_over (λ c. anchor_total c.anchor) s.chats)
unfolding tally
tally-Adds s h =
    let named = add_display-fits 0 s.display (omega arith) in
    let all =
      add_chats-Adds (record no_count { bytes = add_display 0 s.display }) s.chats
        (omega (arith, named)) in
    record {
      bytes = omega (arith, all.bytes, named);
      messages = all.messages;
      bodies = all.bodies;
      anchors = all.anchors;
    }

-- For a running context, where the charges of a store come to at most the largest `int64`, the
-- estimate is their sum (32 and the size of each name in the cache; 64, the identifier and the name
-- of each chat; 64 and the size of each message; 32 and the identifiers of each anchor), and its
-- counts are the numbers of chats, messages, retained bodies and anchors.
pub usage-exact : (s : Memory) → charge s ≤ max_int64 → usage s running ≡ ok (summed s)
unfolding usage check_context
usage-exact s h =
    let t = tally-Adds s h in
    let size : (tally s).bytes ≡ charge s = t.bytes ∙ omega arith in
    let messages : (tally s).messages ≡ sum_over (λ c. length c.messages) s.chats =
      t.messages ∙ omega arith in
    let bodies : (tally s).bodies ≡ sum_over (λ c. body_total c.messages) s.chats =
      t.bodies ∙ omega arith in
    let anchors : (tally s).anchors ≡ sum_over (λ c. anchor_total c.anchor) s.chats =
      t.anchors ∙ omega arith in
    rw (size, messages, bodies, anchors)
      (ap or_invalid (
        new_cache_usage-pos (charge s) (length s.chats) (sum_over (λ c. length c.messages) s.chats)
          (sum_over (λ c. body_total c.messages) s.chats)
          (sum_over (λ c. anchor_total c.anchor) s.chats)))
