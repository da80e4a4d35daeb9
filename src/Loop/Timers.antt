-- ===== src/Loop/Timers.antt =====
-- The expiry of timers by `loop_add_timer` and `loop_poll` of src/loop.c.
use dewlock.Base.{ℕ, ◌+◌, ◌*◌, ◌/◌, ◌%◌, ◌≤◌, ◌<◌, ◌≡◌, Bool, true, arith, ltb}
use dewlock.Base.Int.{pos, negsuc, ◌+ℤ◌, ◌-ℤ◌, scale, quot, rem}
use dewlock.Loop.{Timespec, Callback, expiry_after, is_expired}

abbrev pub billion : ℕ
billion = 1000000000

-- A reading of the clock, from its two fields.
abbrev pub at : ℕ → ℕ → Timespec
at sec nsec = record { tv_sec = pos sec; tv_nsec = pos nsec }

-- The reading that is `n` nanoseconds after the clock's start.
abbrev pub at_ns : ℕ → Timespec
at_ns n = at (n / billion) (n % billion)

-- For a delay that is not negative the expiry is exactly that many milliseconds after the reading,
-- and its nanoseconds are below a second again.
expiry_after-exact :
    (sec nsec ms : ℕ)
    → nsec < billion
    → expiry_after (at sec nsec) (pos ms) ≡ at_ns (sec * billion + nsec + ms * 1000000)
unfolding expiry_after ◌+ℤ◌ ◌-ℤ◌ scale quot rem
expiry_after-exact sec nsec ms h = ground arith

is_expired-at_ns :
    (a m k : ℕ) (c : Callback) (b : Bool)
    → is_expired (at_ns m) (record { addr = a; callback = c; expiry = at_ns k; removed = b })
      ≡ ltb k m
unfolding is_expired
is_expired-at_ns a m k c b = ground arith

-- A timer that was added with a delay of some milliseconds is due at the readings that are later
-- than the reading at which it was added by more than the delay, and at no others.
pub is_expired-after :
    (a sec nsec ms m : ℕ) (c : Callback) (b : Bool)
    → nsec < billion
    → is_expired (at_ns m) (record {
      addr = a;
      callback = c;
      expiry = expiry_after (at sec nsec) (pos ms);
      removed = b;
    })
      ≡ ltb (sec * billion + nsec + ms * 1000000) m
is_expired-after a sec nsec ms m c b h =
    rw (expiry_after-exact sec nsec ms h)
      (is_expired-at_ns a m (sec * billion + nsec + ms * 1000000) c b)

-- With the delay -1 the expiry lies before the reading, so the timer is due at every reading that is
-- not earlier.
pub expiry_after-negative :
    (sec nsec sec' nsec' a : ℕ) (c : Callback) (b : Bool)
    → nsec < billion
    → sec * billion + nsec ≤ sec' * billion + nsec'
    → nsec' < billion
    → is_expired (at sec' nsec') (record {
      addr = a;
      callback = c;
      expiry = expiry_after (at sec nsec) (negsuc 0);
      removed = b;
    })
      ≡ true
unfolding expiry_after is_expired ◌+ℤ◌ ◌-ℤ◌ scale quot rem
expiry_after-negative sec nsec sec' nsec' a c b h le h' = ground arith
