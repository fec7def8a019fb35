-- ===== src/Storage/Env.antt =====
-- crates/storage/src/lib.rs: what an operation takes from outside. An instant is a number of
-- milliseconds since 1970, which is what the texts that `now` formats (RFC 3339, UTC, to the
-- millisecond) stand for and sort by. All clock readings of one call are taken to be one instant.
use frontkeep.Base.{ℕ, ◌+◌, ◌-◌, ◌*◌, String, ℤ, pos, negsuc}

pub record Env : Type 0 where
  -- `now()`
  pub now : ℕ
  -- `new_uid()` for the row that the call inserts, and for its audit record
  pub uid : String
  pub audit_uid : String

-- Seconds are whole and not negative here; `minus_seconds` is the call with a negated number.
abbrev pub plus_seconds : ℕ → ℕ → ℕ
plus_seconds t secs = t + secs * 1000

abbrev pub minus_seconds : ℕ → ℕ → ℕ
minus_seconds t secs = t - secs * 1000

-- `plus_seconds` with a number of either sign. It panics in the code where the instant leaves the
-- years that chrono has, some 262,000.
abbrev pub shift_seconds : ℕ → ℤ → ℕ
shift_seconds t (pos secs) = plus_seconds t secs
shift_seconds t (negsuc secs) = minus_seconds t (secs + 1)

abbrev pub plus_days : ℕ → ℕ → ℕ
plus_days t n = t + n * 86_400_000
