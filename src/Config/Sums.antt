-- ===== src/Config/Sums.antt =====
-- The checked sums of positive values are their sums.
use walite.Base.{
  ℕ, ◌+◌, ◌-◌, ◌^◌, ◌≤◌, ◌≡◌, refl, ◌∙◌, sym, ap, ℤ, pos, negsuc, pos_part, ◌<ℤ◌, ◌+ℤ◌, ◌-ℤ◌, List,
  [], ◌∷◌, Option, none, some, ok, arith, All, >>=-eq-ok, String,
}
use walite.Config.{
  checked_add, add_budgets, or_overflow, max_aggregate_queue_bytes, retention_summary_records,
  add_one,
}

pub positive_eq : (a : ℤ) → pos 0 <ℤ a → a ≡ pos (pos_part a)
positive_eq (pos n) h = refl
positive_eq (negsuc n) h = absurd (omega arith)

-- A sum within the largest integer is made, and no other.
pub checked_add-fits :
    (m n : ℕ) → m + n ≤ 2 ^ 63 - 1 → checked_add (pos m) (pos n) ≡ some (pos (m + n))
unfolding checked_add ◌+ℤ◌ ◌-ℤ◌
checked_add-fits m n h = ground arith

pub checked_add-exact : (m n : ℕ) {t : ℤ} → checked_add (pos m) (pos n) ≡ some t → t ≡ pos (m + n)
unfolding checked_add ◌+ℤ◌
checked_add-exact m n e = ground arith

or_overflow-some :
    (field : String) (max : ℕ) (o : Option ℤ) {t : ℤ} → or_overflow field max o ≡ ok t → o ≡ some t
or_overflow-some field max none e = cc
or_overflow-some field max (some k) e = ground arith

abbrev pub total_of : List ℤ → ℕ
total_of [] = 0
total_of (b ∷ bs) = pos_part b + total_of bs

pub add_budgets-exact :
    (n : ℕ) (budgets : List ℤ) {t : ℤ}
    → All (λ b. pos 0 <ℤ b) budgets
    → add_budgets (pos n) budgets ≡ ok t
    → t ≡ pos (n + total_of budgets)
unfolding add_budgets
add_budgets-exact n [] h e = ground arith
add_budgets-exact n (pos b ∷ budgets) {t} h e =
    let (next, added, rest) =
      >>=-eq-ok
        (or_overflow "queues.total_bytes" max_aggregate_queue_bytes (checked_add (pos n) (pos b)))
        (λ next. add_budgets next budgets) e in
    let same : next ≡ pos (n + b) = checked_add-exact n b (or_overflow-some _ _ _ added) in
    let there : add_budgets (pos (n + b)) budgets ≡ ok t =
      sym (ap (λ k. add_budgets k budgets) same) ∙ rest in
    add_budgets-exact (n + b) budgets h.1 there ∙ ap pos (omega arith)
add_budgets-exact n (negsuc b ∷ budgets) h e = absurd (omega (arith, h.0))

pub add_budgets-fits :
    (n : ℕ) (budgets : List ℤ)
    → All (λ b. pos 0 <ℤ b) budgets
    → n + total_of budgets ≤ 2 ^ 63 - 1
    → add_budgets (pos n) budgets ≡ ok (pos (n + total_of budgets))
unfolding add_budgets
add_budgets-fits n [] h small = ap (λ k. ok (pos k)) (omega arith)
add_budgets-fits n (pos b ∷ budgets) h small =
    rw (checked_add-fits n b (omega arith))
      (add_budgets-fits (n + b) budgets h.1 (omega arith) ∙ ap (λ k. ok (pos k)) (omega arith))
add_budgets-fits n (negsuc b ∷ budgets) h small = absurd (omega (arith, h.0))

pub retention_summary_records-fits :
    (m n : ℕ)
    → m + n + 1 ≤ 2 ^ 63 - 1
    → retention_summary_records (pos m) (pos n) ≡ ok (pos (m + n + 1))
unfolding retention_summary_records
retention_summary_records-fits m n h =
    rw (checked_add-fits m n (omega arith)) (rw (checked_add-fits (m + n) 1 h))

pub retention_summary_records-exact :
    (m n : ℕ) {t : ℤ} → retention_summary_records (pos m) (pos n) ≡ ok t → t ≡ pos (m + n + 1)
unfolding retention_summary_records
retention_summary_records-exact m n {t} e =
    let all : add_one (checked_add (pos m) (pos n)) ≡ some t = or_overflow-some _ _ _ e in
    step (checked_add (pos m) (pos n)) refl all
  where
    step :
        (o : Option ℤ) → checked_add (pos m) (pos n) ≡ o → add_one o ≡ some t → t ≡ pos (m + n + 1)
    step none made e = cc
    step (some k) made e =
        let same = checked_add-exact m n made in
        checked_add-exact (m + n) 1 (sym (ap (λ k. checked_add k (pos 1)) same) ∙ e)
