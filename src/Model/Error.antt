-- ===== src/Model/Error.antt =====
-- `ValidationError` of internal/model/normalize.go and history.go: a failure names a field, a code
-- and a limit, and never the rejected value.
use walite.Base.{ℕ, String, Result, err}

-- The constants of the string type `ValidationCode`.
pub data ValidationCode : Type 0 where
  required invalid_utf8 control_character too_long size_exceeded invalid_value : ValidationCode

pub record ValidationError : Type 0 where
  pub code : ValidationCode
  pub field : String
  pub limit : ℕ

unfoldable pub new_validation_error : ValidationCode → String → ℕ → ValidationError
new_validation_error code field limit = record { code = code; field = field; limit = limit }

abbrev pub Validated {ℓ} : Type ℓ → Type ℓ
Validated A = Result ValidationError A

abbrev pub invalid {ℓ} : {A : Type ℓ} → ValidationCode → String → ℕ → Validated A
unfolding new_validation_error
invalid code field limit = err (new_validation_error code field limit)
