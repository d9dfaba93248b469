-- ===== src/Tests/Retention.antt =====
-- The retention policy (internal/syncpolicy/policy.go) on a chat with four messages.
use walite.Base.{
  ℕ, ◌≡◌, refl, ◌⊎◌, ◌≢◌, ◌↔◌, pos, ◌-ℤ◌, bytes_eq, true, false, List, [], ◌∷◌, All, none, ok,
  arith,
}
use walite.Model.Utf8.{valid_string, runes, decode_rune, is_control}
use walite.Model.Media.{no_media}
use walite.Model.Quote.{no_quote}
use walite.Model.Identifier.{
  ChatId, MessageId, new_chat_id, new_message_id, validate_identifier, has_control,
}
use walite.Model.Message.{Message}
use walite.Model.Anchor.{write_realtime, write_history}
use walite.Model.Retention.{
  MessageSummary, CacheUsage, RetentionState, RetentionSnapshot, RetentionDecision, PrunePlan,
  validate_cache_usage, new_cache_usage, keep_body, keep_metadata, retention_cache_limit,
}
use walite.SyncPolicy.{
  Policy, cutoff, plan_prune, decide, validate_policy, validate_state, validate_snapshot,
  validate_summaries, validate_summary, validate_anchor, validate_message_identity, is_stale,
}
use walite.SyncPolicy.Loop.{message_ids}
use walite.SyncPolicy.Guarantee.{Guarantee, plan_prune-Guarantee}
use walite.SyncPolicy.Anchors.{plan_prune-Covers, plan_prune-settled, Covers, Advances, in_force}
use walite.SyncPolicy.Decide.{decide-Eligible, Eligible}

abbrev two_bodies : Policy
two_bodies = record { messages_per_chat = pos 2; max_age = pos 100; cache_bytes = pos 1000 }

abbrev four_bodies : Policy
four_bodies = record two_bodies { messages_per_chat = pos 4 }

abbrev empty_cache : CacheUsage
empty_cache = record {
  estimated_bytes = pos 0;
  chats = pos 1;
  messages = pos 4;
  bodies = pos 4;
  anchors = pos 0;
  constructed = true;
}

abbrev at_thousand : RetentionState
at_thousand = record {
  now = pos 1000;
  newer_bodies = pos 1;
  usage = empty_cache;
  origin = write_realtime;
}

abbrev family : ChatId
family = record { value = 0x63 ∷ 0x68 ∷ [] }

abbrev numbered : ℕ → MessageId
numbered n = record { value = 0x6D ∷ n ∷ [] }

abbrev sent : ℕ → ℕ → MessageSummary
sent n at = record {
  chat_id = family;
  message_id = numbered n;
  sent_at = pos at;
  from_me = false;
  body_retained = true;
  body_bytes = pos 5;
}

-- The last message is stale at 1000, the one at 930 is the third.
abbrev crowded_chat : RetentionSnapshot
crowded_chat = record {
  chat_id = family;
  summaries = sent 0x31 930 ∷ sent 0x32 990 ∷ sent 0x33 990 ∷ sent 0x34 850 ∷ [];
  anchor = none;
}

abbrev settled_chat : RetentionSnapshot
settled_chat = record crowded_chat {
  summaries = sent 0x31 930 ∷ sent 0x32 990 ∷ sent 0x33 990 ∷ [];
}

abbrev greeting : Message
greeting = record {
  chat_id = family;
  message_id = numbered 0x35;
  sent_at = pos 995;
  from_me = true;
  text = 0x68 ∷ 0x69 ∷ [];
  quote = no_quote;
  media = no_media;
  sender_id = record { value = [] };
  is_group = false;
  body_truncated = false;
  body_retained = true;
  notification_eligible = false;
  byte_size = 6;
}

two_bodies-ok : validate_policy two_bodies ≡ ok tt
unfolding validate_policy
two_bodies-ok = refl

four_bodies-ok : validate_policy four_bodies ≡ ok tt
unfolding validate_policy
four_bodies-ok = refl

at_thousand-ok : validate_state at_thousand ≡ ok tt
unfolding validate_state validate_cache_usage new_cache_usage
at_thousand-ok = refl

crowded_chat-ok : validate_snapshot crowded_chat ≡ ok tt
unfolding validate_snapshot validate_summaries validate_summary validate_anchor new_chat_id
    new_message_id validate_identifier has_control valid_string decode_rune runes is_control
    bytes_eq
crowded_chat-ok = refl

settled_chat-ok : validate_snapshot settled_chat ≡ ok tt
unfolding validate_snapshot validate_summaries validate_summary validate_anchor new_chat_id
    new_message_id validate_identifier has_control valid_string decode_rune runes is_control
    bytes_eq
settled_chat-ok = refl

greeting-ok : validate_message_identity greeting ≡ ok tt
unfolding validate_message_identity new_chat_id new_message_id validate_identifier has_control
    valid_string decode_rune runes is_control
greeting-ok = refl

plan_prune-Guarantee_example :
    (plan : PrunePlan) × (gone : List MessageSummary) × (stay : List MessageSummary) × (plan_prune
        two_bodies crowded_chat at_thousand
      ≡ ok plan)
    × Guarantee two_bodies crowded_chat at_thousand plan gone stay
plan_prune-Guarantee_example =
    plan_prune-Guarantee two_bodies crowded_chat at_thousand two_bodies-ok at_thousand-ok
      crowded_chat-ok

plan_prune-Covers_example :
    (plan : PrunePlan) × (gone : List MessageSummary) × (plan_prune two_bodies crowded_chat
        at_thousand
      ≡ ok plan)
    × (plan.delete_ids ≡ message_ids gone)
    × All (Covers (in_force plan.replacement none)) gone
    × Advances plan.replacement none
plan_prune-Covers_example =
    plan_prune-Covers two_bodies crowded_chat at_thousand two_bodies-ok at_thousand-ok
      crowded_chat-ok

settled_chat-fresh :
    All (λ x. is_stale (cutoff four_bodies at_thousand) x ≡ false) settled_chat.summaries
unfolding ◌-ℤ◌
settled_chat-fresh = (refl, (refl, (refl, tt)))

plan_prune-settled_example :
    plan_prune four_bodies settled_chat at_thousand
    ≡ ok (record { chat_id = family; delete_ids = []; replacement = none })
plan_prune-settled_example =
    plan_prune-settled four_bodies settled_chat at_thousand four_bodies-ok at_thousand-ok
      settled_chat-ok settled_chat-fresh (omega arith)

decide-Eligible_example :
    (d : RetentionDecision) × (decide two_bodies greeting at_thousand ≡ ok d)
    × ((d.action ≡ keep_body) ↔ Eligible two_bodies greeting at_thousand)
    × ((d.action ≡ keep_body) ⊎ (d.action ≡ keep_metadata))
    × ((d.reason ≢ retention_cache_limit) ⊎ (write_realtime ≡ write_history))
decide-Eligible_example =
    decide-Eligible two_bodies greeting at_thousand greeting-ok two_bodies-ok at_thousand-ok
