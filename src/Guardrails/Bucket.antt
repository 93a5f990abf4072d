-- ===== src/Guardrails/Bucket.antt =====
-- crates/accord-server/src/guardrails/mod.rs: the token bucket. Its floats are exact here: a token
-- is 20·10⁹ units, and a refill of r units in a nanosecond is r / 20 tokens in a second.
-- The rounding of the source is left out: it can decide otherwise at the instant at which a token
-- accrues, and tell one second more or less.
use accord_rfc.Base.{ℕ, ◌+◌, ◌-◌, ◌*◌, ◌/◌, min, max, Option, none, some, leb, if◌then◌else◌}

abbrev pub one_token : ℕ
one_token = 20000000000

-- Nanoseconds in a second.
abbrev pub second : ℕ
second = 1000000000

-- `TokenBucket`
pub record TokenBucket : Type 0 where
  pub tokens : ℕ
  pub capacity : ℕ
  pub refill : ℕ
  pub last : ℕ

-- `TokenBucket::new`
abbrev pub new_bucket : ℕ → ℕ → ℕ → TokenBucket
new_bucket capacity refill now = record {
  tokens = capacity;
  capacity = capacity;
  refill = refill;
  last = now;
}

-- The tokens with what has accrued since the last call; a clock that went back accrues nothing.
unfoldable pub available : ℕ → TokenBucket → ℕ
available now bucket = min (bucket.tokens + (now - bucket.last) * bucket.refill) bucket.capacity

-- The whole seconds in which `deficit` accrues, rounded up, and at least one.
unfoldable pub retry_after : ℕ → ℕ → ℕ
retry_after deficit refill = max ((deficit + (refill * second - 1)) / (refill * second)) 1

-- `try_take`: none for a token that is spent, and else the seconds until there is one.
unfoldable pub try_take : ℕ → TokenBucket → Option ℕ × TokenBucket
unfolding available retry_after
try_take now bucket =
    let tokens = available now bucket in
    if leb one_token tokens
    then (none, record bucket { tokens = tokens - one_token; last = now })
    else (
      some (retry_after (one_token - tokens) bucket.refill),
      record bucket { tokens = tokens; last = now },
    )
