-- ===== src/Prelude/Clock.antt =====
-- `datetime.isoformat`, and `datetime.fromisoformat` with the adjustment to UTC around it, of the
-- standard library. Instants are numbers of microseconds.
use Prim.Native.Nat.{ℕ}
use Prim.Native.String.{String}
use mathlib.Core.Path.{◌≡◌}

-- The texts of instants: what `isoformat` writes is read back as the same instant.
pub record Clock : Type 0 where
  pub isoformat : ℕ → String
  pub parse_datetime : String → ℕ
  pub parse-isoformat : (t : ℕ) → parse_datetime (isoformat t) ≡ t
