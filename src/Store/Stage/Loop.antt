-- ===== src/Store/Stage/Loop.antt =====
-- The loop that stages the messages of a batch keeps what holds of them.
use walite.Base.{
  ◌≡◌, refl, sym, ◌∙◌, subst, true, false, Bool-cases, inl, inr, List, [], ◌∷◌, Bytes, All, All-imp,
  Option, none, some, Bool, ◌++◌, WhenOk, WhenOk-ok, WhenOk->>=, Result-cases,
}
use walite.Assoc.{lookup}
use walite.Model.Message.{Message}
use walite.Store.Memory.{Memory}
use walite.Store.Memory.Invariant.{IsMemory}
use walite.Store.Merge.{conflicts, merge_message}
use walite.Store.Merge.Keeps.{merge_message-Merged}
use walite.Store.Stage.{
  Staging, no_staging, chat_key, message_key, stage, find_prior, add_pair, add_if_new, stage_found,
  stage_message, stage_messages,
}
use walite.Store.Stage.Places.{
  HasHome, IsPlaced, IsWhole, Stands, IsStaging, HasHome-add, HasHome-self, IsNewChat-add,
  All-stage, contains_pair-add_pair, contains_pair-add_pair_self,
}
use walite.Store.Stage.Invariant.{IsPrior, find_prior-IsPrior, merge_message-IsWhole}

-- A round, or several, from `g` to `h`.
pub record Stages (s : Memory) (g : Staging) (ms : List Message) (h : Staging) : Type 0 where
  pub staging : IsStaging s h
  pub homes : All (λ m. HasHome s h.new_chats (chat_key m)) ms
  pub grows : (k : Bytes) → HasHome s g.new_chats k → HasHome s h.new_chats k

abbrev at_home : Memory → Staging → Message → Staging
at_home s g m = record g {
  new_chats = add_if_new (chat_key m) (lookup (chat_key m) s.chats) g.new_chats;
}

at_home-Stages :
    (s : Memory) (g : Staging) (m : Message)
    → IsStaging s g
    → IsWhole m
    → Stages s g (m ∷ []) (at_home s g m)
at_home-Stages s g m v w =
    let o = lookup (chat_key m) s.chats in
    record {
      staging = record {
        staged =
            All-imp (Stands s g) (Stands s (at_home s g m))
              (λ n h. (h.0, h.1, HasHome-add s (chat_key n) (chat_key m) o g.new_chats h.2))
              g.staged v.staged;
        fresh = IsNewChat-add s (chat_key m) g.new_chats w.chat_valid v.fresh;
      };
      homes = (HasHome-self s (chat_key m) g.new_chats, tt);
      grows = λ k h. HasHome-add s k (chat_key m) o g.new_chats h;
    }

-- A staged message takes its place.
stage-IsStaging :
    (s : Memory) (g : Staging) (m : Message) (ids : List (Bytes × Bytes)) (inserted : List Bool)
    → IsStaging s g
    → ((k i : Bytes) → IsPlaced s g.new_ids k i → IsPlaced s ids k i)
    → IsWhole m
    → IsPlaced s ids (chat_key m) (message_key m)
    → HasHome s g.new_chats (chat_key m)
    → IsStaging s (record g { new_ids = ids; staged = stage m g.staged; inserted = inserted })
stage-IsStaging s g m ids inserted v more w placed home =
    let h : Staging = record g { new_ids = ids; staged = stage m g.staged; inserted = inserted } in
    record {
      staged =
          All-stage (Stands s h) m g.staged (w, placed, home)
            (All-imp (Stands s g) (Stands s h)
              (λ n k. (k.0, more (chat_key n) (message_key n) k.1, k.2)) g.staged v.staged);
      fresh = v.fresh;
    }

IsPlaced-add :
    (s : Memory) (ids : List (Bytes × Bytes)) (j h k i : Bytes)
    → IsPlaced s ids k i
    → IsPlaced s (add_pair j h ids) k i
IsPlaced-add s ids j h k i (inl stored) = inl stored
IsPlaced-add s ids j h k i (inr new) = inr (contains_pair-add_pair k i j h ids new)

abbrev Follows : Memory → Staging → Staging → Type 0
Follows s g h = IsStaging s h × (h.new_chats ≡ g.new_chats)

stage_found-Follows :
    (s : Memory) (g : Staging) (m : Message) (o : Option Message)
    → IsStaging s g
    → IsWhole m
    → HasHome s g.new_chats (chat_key m)
    → ((prior : Message) → o ≡ some prior → IsPrior s g m prior)
    → WhenOk (Follows s g) (stage_found g m o)
unfolding stage_found
stage_found-Follows s g m none v w home f =
    let ids = add_pair (chat_key m) (message_key m) g.new_ids in
    (
      stage-IsStaging s g m ids (g.inserted ++ (true ∷ [])) v
          (IsPlaced-add s g.new_ids (chat_key m) (message_key m)) w
          (inr (contains_pair-add_pair_self (chat_key m) (message_key m) g.new_ids)) home,
      refl,
    )
stage_found-Follows s g m (some prior) v w home f = elim (Bool-cases (conflicts prior m)) [
  | inl bad ↦ rw bad tt
  | inr agree ↦
      let p = f prior refl in
      let r = merge_message-Merged prior m p.chat p.id agree in
      rw agree (
        stage-IsStaging s g (merge_message prior m) g.new_ids (g.inserted ++ (false ∷ [])) v
            (λ k i placed. placed) (merge_message-IsWhole s g m prior p w agree)
            (subst (λ k. IsPlaced s g.new_ids k (message_key (merge_message prior m))) (sym r.chat)
              (subst (IsPlaced s g.new_ids (chat_key m)) (sym r.id) p.placed))
            (subst (HasHome s g.new_chats) (sym r.chat) home),
        refl,
      )
]

find_prior-at_home :
    (s : Memory) (g : Staging) (m : Message) → find_prior s (at_home s g m) m ≡ find_prior s g m
unfolding find_prior
find_prior-at_home s g m = refl

stage_message-Stages :
    (s : Memory) (g : Staging) (m : Message)
    → IsMemory s
    → IsStaging s g
    → IsWhole m
    → WhenOk (Stages s g (m ∷ [])) (stage_message s g m)
unfolding stage_message
stage_message-Stages s g m mem v w =
    let first = at_home-Stages s g m v w in
    lift (at_home s g m) (find_prior s g m) first (
      stage_found-Follows s (at_home s g m) m (find_prior s g m) first.staging w first.homes.0
        (λ prior e.
          find_prior-IsPrior s (at_home s g m) m mem first.staging (find_prior-at_home s g m ∙ e)))
  where
    follow : (h k : Staging) → Stages s g (m ∷ []) h → Follows s h k → Stages s g (m ∷ []) k
    follow h k a b = record {
      staging = b.0;
      homes = (subst (λ c. HasHome s c (chat_key m)) (sym b.1) a.homes.0, tt);
      grows = λ j x. subst (λ c. HasHome s c j) (sym b.1) (a.grows j x);
    }

    lift :
        (h : Staging) (o : Option Message)
        → Stages s g (m ∷ []) h
        → WhenOk (Follows s h) (stage_found h m o)
        → WhenOk (Stages s g (m ∷ [])) (stage_found h m o)
    lift h o a b = elim (Result-cases (stage_found h m o)) [
      | inl (e, failed) ↦ rw failed tt
      | inr (k, done) ↦ rw done (follow h k a (WhenOk-ok (Follows s h) (stage_found h m o) b done))
    ]

pub stage_messages-Stages :
    (s : Memory) (g : Staging) (ms : List Message)
    → IsMemory s
    → IsStaging s g
    → All IsWhole ms
    → WhenOk (Stages s g ms) (stage_messages s g ms)
unfolding stage_messages
stage_messages-Stages s g [] mem v w = record { staging = v; homes = tt; grows = λ k h. h }
stage_messages-Stages s g (m ∷ ms) mem v w =
    WhenOk->>= (Stages s g (m ∷ [])) (Stages s g (m ∷ ms)) (stage_message s g m)
      (λ next. stage_messages s next ms) (stage_message-Stages s g m mem v w.0)
      (λ next done a. go next a (stage_messages-Stages s next ms mem a.staging w.1))
  where
    go :
        (next : Staging)
        → Stages s g (m ∷ []) next
        → WhenOk (Stages s next ms) (stage_messages s next ms)
        → WhenOk (Stages s g (m ∷ ms)) (stage_messages s next ms)
    go next a b = elim (Result-cases (stage_messages s next ms)) [
      | inl (e, failed) ↦ rw failed tt
      | inr (k, done) ↦
          let c = WhenOk-ok (Stages s next ms) (stage_messages s next ms) b done in
          rw done (record {
            staging = c.staging;
            homes = (c.grows (chat_key m) a.homes.0, c.homes);
            grows = λ j x. c.grows j (a.grows j x);
          })
    ]

pub no_staging-IsStaging : (s : Memory) → IsStaging s no_staging
no_staging-IsStaging s = record { staged = tt; fresh = tt }
