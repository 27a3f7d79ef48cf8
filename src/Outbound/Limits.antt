-- ===== src/Outbound/Limits.antt =====
-- src/server/outbound-flow.ts, the options of `OutboundFlowController` and their validation.
use chatwca.Prelude.{
  Number, Option, Result, err, if◌then◌else◌, is_safe, leb, nat, none, not, ok, other, some, ℕ, ◌*◌,
  ◌>>=◌, ◌||◌,
}

pub record Limits : Type 0 where
  pub high_water : ℕ
  pub max_queue : ℕ
  pub slow_timeout : ℕ
  pub poll_interval : ℕ

pub record Options : Type 0 where
  pub high_water : Option Number
  pub max_queue : Option Number
  pub slow_timeout : Option Number
  pub poll_interval : Option Number

pub data LimitError : Type 0 where
  not_positive_safe : LimitError

unfoldable pub positive_integer : Number → Result LimitError ℕ
positive_integer (nat n) = if not (is_safe n) || leb n 0 then err not_positive_safe else ok n
positive_integer other = err not_positive_safe

abbrev pub or_default : Option Number → ℕ → Number
or_default none d = nat d
or_default (some n) d = n

-- The limits that the constructor sets, with the exported defaults.
unfoldable pub limits_of : Options → Result LimitError Limits
unfolding positive_integer
limits_of o = do
  high ← positive_integer (or_default o.high_water (512 * 1024))
  queue ← positive_integer (or_default o.max_queue (4 * 1024 * 1024))
  slow ← positive_integer (or_default o.slow_timeout 5_000)
  poll ← positive_integer (or_default o.poll_interval 25)
  ok (record { high_water = high; max_queue = queue; slow_timeout = slow; poll_interval = poll })
