-- ===== src/Subscription/Period.antt =====
-- The clock of a subscription (`current_period` of subscription.rs).
use grokchain_programs.Base.{ℤ, pos, negsuc, ◌-ℤ◌, ◌/ℤ◌, ltb_ℤ, leb_ℤ, fits_i64, if◌then◌else◌}
use grokchain_programs.Errors.{subscription_period_too_short, subscription_not_started}
use grokchain_programs.Runtime.World.{Result, ok, err, aborted}
use grokchain_programs.Runtime.Check.{◌>>=◌, ◌>>◌, require}

-- `PERIOD_NONE` and `MIN_PERIOD_SECONDS`.
abbrev pub period_none : ℤ
period_none = negsuc 0

abbrev pub min_period_seconds : ℤ
min_period_seconds = pos 86_400

-- Subtraction of i64 values: it aborts on overflow.
abbrev pub sub_i64 : ℤ → ℤ → Result ℤ
sub_i64 a b = if fits_i64 (a -ℤ b) then ok (a -ℤ b) else err aborted

unfoldable pub current_period : ℤ → ℤ → ℤ → Result ℤ
current_period now start_unix period_seconds = do
  require (ltb_ℤ (pos 0) period_seconds) subscription_period_too_short
  require (leb_ℤ start_unix now) subscription_not_started
  elapsed ← sub_i64 now start_unix
  ok (elapsed /ℤ period_seconds)
