-- ===== src/Model/Order.antt =====
-- The order (sent_at, message_id) in which messages are paged and pruned, as a strict total order.
use walite.Base.{
  ◌≡◌, Bool, true, false, inl, inr, subst, Bool-cases, Bytes, bytes_lt, bytes_lt_irrefl,
  bytes_lt_tri, bytes_lt_asymm, bytes_lt_chain, eqb_ℤ-eq, if◌then◌else◌, arith,
}
use walite.Model.Time.{Time, before, equal}

unfoldable pub key_before : Time → Bytes → Time → Bytes → Bool
key_before t i u j = if equal t u then bytes_lt i j else before t u

pub key_before_irrefl : (t : Time) (i : Bytes) → key_before t i t i ≡ false
unfolding key_before
key_before_irrefl t i = ground (arith, bytes_lt_irrefl i)

pub key_before_asymm :
    (t : Time) (i : Bytes) (u : Time) (j : Bytes)
    → key_before t i u j ≡ true
    → key_before u j t i ≡ false
unfolding key_before
key_before_asymm t i u j h = ground (arith, bytes_lt_asymm i j)

pub key_before_tri :
    (t : Time) (i : Bytes) (u : Time) (j : Bytes)
    → key_before t i u j ≡ false
    → key_before u j t i ≡ false
    → (t ≡ u) × (i ≡ j)
unfolding key_before
key_before_tri t i u j p q = (ground (arith, eqb_ℤ-eq t u), ground (arith, bytes_lt_tri i j))

-- Not to come before is transitive.
pub key_before_chain :
    (t : Time) (i : Bytes) (u : Time) (j : Bytes) (v : Time) (k : Bytes)
    → key_before t i u j ≡ false
    → key_before u j v k ≡ false
    → key_before t i v k ≡ false
unfolding key_before
key_before_chain t i u j v k p q = ground (arith, bytes_lt_chain i j k)

pub key_before_through :
    (t : Time) (i : Bytes) (u : Time) (j : Bytes) (v : Time) (k : Bytes)
    → key_before t i u j ≡ true
    → key_before u j v k ≡ true
    → key_before t i v k ≡ true
key_before_through t i u j v k p q = elim (Bool-cases (key_before t i v k)) [
  | inl e ↦ e
  | inr e ↦
      let (same, here) =
        key_before_tri t i v k e (
          key_before_chain v k u j t i (key_before_asymm u j v k q) (key_before_asymm t i u j p)) in
      absurd (
        grind (
          arith,
          key_before_asymm u j v k q,
          subst (λ w. key_before w k u j ≡ true) same
              (subst (λ w. key_before t w u j ≡ true) here p),
        ))
]
