-- ===== src/Domain/Time.antt =====
-- src/domain.rs, `TimeOfDay`: a wall-clock minute of the single day.
use troute.Prelude.{ℕ, ◌*◌, ◌<◌, leb, if◌then◌else◌, Option, none, some, Result, ok, err}
use troute.Prelude.U32
use troute.Prelude.Options.{◌>>=◌}

abbrev pub minutes_per_day : ℕ
minutes_per_day = 24 * 60

-- The tuple struct `TimeOfDay(u16)`.
pub record TimeOfDay : Type 0 where
  pub minutes : ℕ

pub data TimeParseError : Type 0 where
  invalid_format out_of_range : TimeParseError

unfoldable pub from_minutes : ℕ → Result TimeOfDay TimeParseError
from_minutes m =
    if leb minutes_per_day m then err TimeParseError.out_of_range else ok (record { minutes = m })

-- `checked_add` on `u32`, then the bound of the day.
unfoldable pub checked_add : TimeOfDay → ℕ → Option TimeOfDay
checked_add t m = do
  result ← U32.checked_add t.minutes m
  if leb minutes_per_day result then none else some (record { minutes = result })

-- What `from_minutes` establishes and the private field keeps.
abbrev pub IsInDay : TimeOfDay → Type 0
IsInDay t = t.minutes < minutes_per_day
