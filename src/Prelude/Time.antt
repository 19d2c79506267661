-- ===== src/Prelude/Time.antt =====
-- Go's `time.Time` and protobuf's `Timestamp`, as far as the collector uses them.
-- A time is the number of nanoseconds since Go's zero time, 0001-01-01T00:00:00Z, so that `IsZero`
-- is a test for 0 and `Before` is `<`; times before the year 1 are not represented.
use Prim.Native.Nat.{ℕ, ◌+◌, ◌-◌, ◌*◌, ◌/◌, ◌%◌}
use mathlib.Core.Path.{◌≡◌}
use mathlib.Core.Bool.{Bool, ◌&&◌, not}
use native.Mathlib.Omega.{arith}
use blueveil.Prelude.Tests.{ltb, eqb, if◌then◌else◌}
use blueveil.Prelude.Int.{ℤ, pos, negsuc, pos_part, neg_part, sub_ℕ, ltb_ℤ}

abbrev pub Time : Type 0
Time = ℕ

-- t.IsZero()
abbrev pub is_zero : Time → Bool
is_zero t = eqb t 0

-- t.Before(u)
abbrev pub before : Time → Time → Bool
before t u = ltb t u

-- Nanoseconds in a second, and the seconds from the zero time to the Unix epoch.
abbrev pub second : ℕ
second = 1000000000

abbrev pub epoch : ℕ
epoch = 62135596800

-- Seconds since the Unix epoch and nanoseconds, as the message carries them: either may be anything.
pub record Timestamp : Type 0 where
  pub seconds : ℤ
  pub nanos : ℤ

-- timestamppb.New(t)
unfoldable pub timestamp : Time → Timestamp
timestamp t = record { seconds = sub_ℕ (t / second) epoch; nanos = pos (t % second) }

-- The first time whose seconds since the zero time are no int64: 2 ^ 63 of them.
abbrev pub wrap_time : Time
wrap_time = 9223372036854775808000000000

-- The nanoseconds since the zero time are ahead ts less behind ts.
abbrev pub ahead : Timestamp → ℕ
ahead ts = (pos_part ts.seconds + epoch) * second + pos_part ts.nanos

abbrev pub behind : Timestamp → ℕ
behind ts = neg_part ts.seconds * second + neg_part ts.nanos

-- ts.AsTime(). Seconds that are no int64 wrap to a time long before the year 1, and all such times are 0 here.
unfoldable pub as_time : Timestamp → Time
as_time ts = let t = ahead ts - behind ts in if ltb t wrap_time then t else 0

-- What the wrap-around of the seconds takes off: 2 ^ 64 of them, or nothing.
abbrev wrapped : Timestamp → ℕ
wrapped ts = if ltb (ahead ts - behind ts) wrap_time then 0 else 2 * wrap_time

-- ts.AsTime().Before(us.AsTime()), also before the year 1.
unfoldable pub before_stamp : Timestamp → Timestamp → Bool
before_stamp ts us = ltb (ahead ts + (behind us + wrapped us)) (ahead us + (behind ts + wrapped ts))

-- ts.CheckValid() == nil: from the year 1 to the end of the year 9999, nanoseconds in [0, 10^9).
unfoldable pub check_valid : Timestamp → Bool
check_valid ts =
    not (ltb_ℤ ts.seconds (negsuc 62135596799))
    && not (ltb_ℤ (pos 253402300799) ts.seconds)
    && not (ltb_ℤ ts.nanos (pos 0))
    && ltb_ℤ ts.nanos (pos second)

-- The end of the year 9999.
abbrev pub end_of_time : Time
end_of_time = 315537897600000000000

-- A time survives the way through a timestamp.
pub ahead-timestamp : (t : Time) → ahead (timestamp t) ≡ t + behind (timestamp t)
unfolding timestamp
ahead-timestamp t = ground arith

-- The timestamps that are built from times before the year 10000 are valid, and no others.
pub check_valid-timestamp : (t : Time) → check_valid (timestamp t) ≡ ltb t end_of_time
unfolding check_valid timestamp
check_valid-timestamp t = ground arith
