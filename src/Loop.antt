-- ===== src/Loop.antt =====
-- src/loop.c: the event loop's file descriptors and timers. A pointer to a timer is its address, and
-- `wl_list` is a list in the order of its links. The polling itself is in Main.antt, where the
-- callbacks are defined; this module has the state and its operations.
pub mod Timers
pub mod Fds
mod Examples
use dewlock.Base.{
  ℕ, zero, suc, ◌+◌, ◌-◌, ◌%◌, ◌^◌, Bool, true, false, ◌&&◌, ◌||◌, not, Option, none, some, List,
  [], ◌∷◌, ◌++◌, ltb, leb, ◌==◌, if◌then◌else◌, get_or, set, take, drop, replicate,
}
use dewlock.Base.Int.{ℤ, pos, negsuc, ◌+ℤ◌, ◌-ℤ◌, scale, quot, rem, ltb_ℤ, eqb_ℤ}

-- A reading of CLOCK_MONOTONIC.
pub record Timespec : Type 0 where
  pub tv_sec : ℤ
  pub tv_nsec : ℤ

-- The functions that the program hands over as timer callbacks, with what their data pointer
-- selects; the seats are numbered.
pub data Callback : Type 0 where
  set_auth_idle clear_password set_time : Callback
  keyboard_repeat : ℕ → Callback

-- The functions that it hands over for file descriptors.
pub data FdCallback : Type 0 where
  display_in reply_in term_in : FdCallback

pub record Timer : Type 0 where
  pub addr : ℕ
  pub callback : Callback
  pub expiry : Timespec
  pub removed : Bool

-- `struct pollfd`; masks are given by the bits that matter, POLLIN and POLLHUP | POLLERR.
pub record Mask : Type 0 where
  pub pollin : Bool
  pub hup : Bool

pub record Pollfd : Type 0 where
  pub fd : ℕ
  pub events : Mask
  pub revents : Mask

-- `fds` is the array of `fd_capacity` entries, the first `fd_length` of them in use.
pub record Loop : Type 0 where
  pub fds : List Pollfd
  pub fd_length : ℕ
  pub fd_capacity : ℕ
  pub fd_events : List FdCallback
  pub timers : List Timer

abbrev pub no_events : Mask
no_events = record { pollin = false; hup = false }

-- An entry that was not written yet.
abbrev pub blank : Pollfd
blank = record { fd = 0; events = no_events; revents = no_events }

unfoldable pub loop_create : Loop
loop_create = record {
  fds = replicate 10 blank;
  fd_length = 0;
  fd_capacity = 10;
  fd_events = [];
  timers = [];
}

-- `wl_list_insert(fd_events.prev, …)` puts the new event at the end. `allocated` says whether
-- `calloc` succeeded.
unfoldable pub loop_add_fd : Loop → Bool → ℕ → Mask → FdCallback → Loop
loop_add_fd l false fd mask callback = l
loop_add_fd l true fd mask callback =
    let full = l.fd_length == l.fd_capacity in
    let fds = if full then l.fds ++ replicate 10 blank else l.fds in
    record l {
      fds = set fds l.fd_length (record { fd = fd; events = mask; revents = no_events });
      fd_length = l.fd_length + 1;
      fd_capacity = if full then l.fd_capacity + 10 else l.fd_capacity;
      fd_events = l.fd_events ++ callback ∷ [];
    }

-- `memmove(&fds[i], &fds[i + 1], n)` for n entries.
abbrev pub move_down : List Pollfd → ℕ → ℕ → List Pollfd
move_down fds i n = take i fds ++ take n (drop (i + 1) fds) ++ drop (i + n) fds

-- The loop over the events, `fd_index` counting up.
remove_fd_loop : Loop → ℕ → List FdCallback → List FdCallback → ℕ → Loop × Bool
remove_fd_loop l fd seen [] fd_index = (l, false)
remove_fd_loop l fd seen (e ∷ rest) fd_index =
    let further = remove_fd_loop l fd (seen ++ e ∷ []) rest (fd_index + 1) in
    if (get_or l.fds fd_index blank).fd == fd
    then (
      record l {
        fds = move_down l.fds fd_index (l.fd_length - 1 - fd_index);
        fd_length = l.fd_length - 1;
        fd_events = seen ++ rest;
      },
      true,
    )
    else further

pub loop_remove_fd : Loop → ℕ → Loop × Bool
unfolding remove_fd_loop
loop_remove_fd l fd = remove_fd_loop l fd [] l.fd_events 0

-- The `timespec` that lies `ms` after `now`.
unfoldable pub expiry_after : Timespec → ℤ → Timespec
unfolding ◌+ℤ◌ ◌-ℤ◌ scale quot rem
expiry_after now ms =
    let sec = now.tv_sec +ℤ quot ms 1000 in
    let nsec = scale (rem ms 1000) 1000000 in
    if ltb_ℤ (now.tv_nsec +ℤ nsec) (pos 1000000000)
    then record { tv_sec = sec; tv_nsec = now.tv_nsec +ℤ nsec }
    else record { tv_sec = sec +ℤ pos 1; tv_nsec = now.tv_nsec +ℤ (nsec -ℤ pos 1000000000) }

-- `calloc` hands out the address `addr`, or none; the new timer goes to the head of the list.
unfoldable pub loop_add_timer :
    Loop → (addr : Option ℕ) → (now : Timespec) → ℤ → Callback → Loop × Option ℕ
loop_add_timer l none now ms callback = (l, none)
loop_add_timer l (some a) now ms callback = (
  record l {
    timers =
        record { addr = a; callback = callback; expiry = expiry_after now ms; removed = false }
        ∷ l.timers;
  },
  some a,
)

-- Marks the timer; `loop_poll` frees it later.
unfoldable pub mark_removed : ℕ → List Timer → List Timer
mark_removed a [] = []
mark_removed a (t ∷ ts) =
    let rest = t ∷ mark_removed a ts in
    if t.addr == a then record t { removed = true } ∷ ts else rest

unfoldable pub is_listed : ℕ → List Timer → Bool
is_listed a [] = false
is_listed a (t ∷ ts) = t.addr == a || is_listed a ts

unfoldable pub loop_remove_timer : Loop → ℕ → Loop × Bool
loop_remove_timer l a = (record l { timers = mark_removed a l.timers }, is_listed a l.timers)

-- `expired` in `loop_poll`.
pub is_expired : Timespec → Timer → Bool
is_expired now t =
    ltb_ℤ t.expiry.tv_sec now.tv_sec
    || (eqb_ℤ t.expiry.tv_sec now.tv_sec && ltb_ℤ t.expiry.tv_nsec now.tv_nsec)

-- The `int` with the given bits.
abbrev pub wrap : ℕ → ℤ
wrap n = if ltb n (2 ^ 31) then pos n else negsuc (2 ^ 32 - 1 - n)

-- The cast of a `long` to `int`, as two's complement.
abbrev pub to_int : ℤ → ℤ
to_int (pos n) = wrap (n % 2 ^ 32)
to_int (negsuc n) = wrap (2 ^ 32 - 1 - n % 2 ^ 32)

-- What `loop_poll` waits for at most, in milliseconds.
timer_ms : Timespec → Timer → ℤ
unfolding ◌+ℤ◌ ◌-ℤ◌ scale quot
timer_ms now t =
    to_int (scale (t.expiry.tv_sec -ℤ now.tv_sec) 1000)
    +ℤ to_int (quot (t.expiry.tv_nsec -ℤ now.tv_nsec) 1000000)

least_ms : Timespec → List Timer → ℤ → ℤ
least_ms now [] ms = ms
least_ms now (t ∷ ts) ms =
    least_ms now ts (if ltb_ℤ (timer_ms now t) ms then timer_ms now t else ms)

pub poll_timeout : Timespec → List Timer → ℤ
unfolding least_ms timer_ms
poll_timeout now timers =
    let ms = least_ms now timers (pos (2 ^ 31 - 1)) in if ltb_ℤ ms (pos 0) then pos 0 else ms
