-- ===== src/Model/Time.antt =====
-- What the code uses of `time.Time`: an instant is the number of nanoseconds since Go's zero time
-- (January 1, year 1, UTC). Locations and monotonic clock readings play no part in the comparisons,
-- and instants are not bounded.
use walite.Base.{ℤ, pos, ltb_ℤ, eqb_ℤ, Bool}

abbrev pub Time : Type 0
Time = ℤ

-- A `time.Duration`, in nanoseconds.
abbrev pub Duration : Type 0
Duration = ℤ

abbrev pub zero_time : Time
zero_time = pos 0

abbrev pub is_zero : Time → Bool
is_zero t = eqb_ℤ t zero_time

abbrev pub before : Time → Time → Bool
before t u = ltb_ℤ t u

abbrev pub after : Time → Time → Bool
after t u = ltb_ℤ u t

abbrev pub equal : Time → Time → Bool
equal t u = eqb_ℤ t u
