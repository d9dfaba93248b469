-- ===== src/Service/Mailbox/Slots.antt =====
-- The slots of a mailbox keep their permits in step with what is dirty, and a drain empties them.
use walite.Base.{
  get_elem?, ◌∙◌, ◌==◌, ◌||◌, ℕ, suc, ◌+◌, ◌≡◌, refl, sym, ap, Bool, true, false, List, [], ◌∷◌,
  All, length, Option, none, some, arith, subst, inl, inr, ◌⊎◌, Option-cases, if◌then◌else◌,
}
use walite.Service.Budget.{Budget, release}
use walite.Service.Budget.Invariant.{IsBudget}
use walite.Service.Budget.Steps.{release-IsBudget}
use walite.Service.Budget.Settle.{settled, is_named, settled-or, release-settled}
use walite.Service.Mailbox.{
  Slot, Mailbox, cleared, has_permit, put_back, count_one, drain_slots, drain_mailbox,
}

module _ {κ} {V : Type κ} where
  -- How many slots hold a permit.
  abbrev pub held : List (Slot V) → ℕ
  held [] = 0
  held (slot ∷ slots) = (if has_permit slot then 1 else 0) + held slots

  -- What is dirty has a permit.
  abbrev pub IsTidy : Slot V → Type 0
  IsTidy slot = (slot.dirty ≡ false) ⊎ (has_permit slot ≡ true)

  abbrev pub IsVacant : Slot V → Type 0
  IsVacant slot = (slot.permit ≡ none) × (slot.dirty ≡ false)

  -- One of the slots holds the permit.
  abbrev pub holds : List (Slot V) → ℕ → Bool
  holds [] k = false
  holds (slot ∷ slots) k = is_named slot.permit k || holds slots k

  -- What a drain of slots leaves; the permits are those before, where the ones that the slots hold
  -- are released.
  pub record Emptied (b : Budget) (slots : List (Slot V)) (r : ℕ × Budget × List (Slot V))
      : Type 0 where
    pub returned :
        (k : ℕ) → get_elem? r.1.permits k ≡ settled (holds slots k) (get_elem? b.permits k)
    pub counted : r.0 ≡ held slots
    pub budget_valid : IsBudget r.1
    pub vacant : All IsVacant r.2
    pub as_many : length r.2 ≡ length slots

  drain_slots-Emptied :
      (b : Budget) (slots : List (Slot V))
      → IsBudget b
      → All IsTidy slots
      → Emptied b slots (drain_slots b slots)
  unfolding drain_slots
  drain_slots-Emptied b [] v t = record {
    returned = λ k. refl;
    counted = refl;
    budget_valid = v;
    vacant = tt;
    as_many = refl;
  }
  drain_slots-Emptied b (slot ∷ slots) v t = elim (Option-cases slot.permit) [
    | inl e ↦
        let rest = drain_slots-Emptied b slots v t.1 in
        subst (λ p. Emptied b (slot ∷ slots) (after_slot p)) (sym e)
          (record {
            returned = λ k. rw e (rest.returned k);
            counted = rw e (omega (arith, rest.counted));
            budget_valid = rest.budget_valid;
            vacant = ((e, clean e t.0), rest.vacant);
            as_many = ap suc rest.as_many;
          })
    | inr (i, e) ↦
        let rest = drain_slots-Emptied (release b i).0 slots (release-IsBudget b i v) t.1 in
        subst (λ p. Emptied b (slot ∷ slots) (after_slot p)) (sym e)
          (record {
            returned = λ k. rw e (
                rest.returned k
                ∙ ap (settled (holds slots k)) (release-settled b i k)
                ∙ settled-or (holds slots k) (i == k) _);
            counted = rw e (omega (arith, rest.counted));
            budget_valid = rest.budget_valid;
            vacant = ((refl, refl), rest.vacant);
            as_many = ap suc rest.as_many;
          })
  ]
    where
      after_slot : Option ℕ → ℕ × Budget × List (Slot V)
      after_slot p = elim p [
        | none ↦ put_back slot (drain_slots b slots)
        | some i ↦ put_back (cleared slot) (count_one (drain_slots (release b i).0 slots))
      ]

      bare : slot.permit ≡ none → has_permit slot ≡ true → ⊥
      bare e h =
          let none_held : has_permit slot ≡ false =
            ap (λ (p : Option ℕ). elim p [ none ↦ false | some i ↦ true ]) e in
          cc

      clean : slot.permit ≡ none → IsTidy slot → slot.dirty ≡ false
      clean e (inl d) = d
      clean e (inr h) = absurd (bare e h)

module _ {ℓ κ} {K : Type ℓ} {V : Type κ} where
  pub record IsMailbox (m : Mailbox K V) : Type 0 where
    pub budget_valid : IsBudget m.budget
    pub tidy : All IsTidy m.slots
    pub as_many : length m.slots ≡ length m.keys

  -- A drain of a valid mailbox counts the slots that hold a permit, leaves as many slots, none of
  -- them with a permit or dirty, and leaves a valid budget in which exactly the permits that the
  -- slots held are released and all others are as they were.
  pub drain_mailbox-Emptied :
      (m : Mailbox K V)
      → IsMailbox m
      → Emptied m.budget m.slots
          ((drain_mailbox m).0, (drain_mailbox m).1.budget, (drain_mailbox m).1.slots)
  unfolding drain_mailbox
  drain_mailbox-Emptied m v = drain_slots-Emptied m.budget m.slots v.budget_valid v.tidy
