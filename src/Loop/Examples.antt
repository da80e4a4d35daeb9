-- ===== src/Loop/Examples.antt =====
-- The theorems on src/loop.c at concrete readings of the clock.
use dewlock.Base.{◌≡◌, refl, true, false, [], ◌∷◌, ◌++◌, arith, ltb}
use dewlock.Base.Int.{pos, negsuc}
use dewlock.Loop.Timers.{at, at_ns, is_expired-after, expiry_after-negative}
use dewlock.Loop.{
  Loop, Callback, FdCallback, expiry_after, is_expired, loop_add_fd, loop_remove_fd, no_events,
  blank,
}
use dewlock.Loop.Fds.{IsArray, registered, without_fd, has_fd, loop_add_fd-registered}
use dewlock.Loop.Fds.Removal.{loop_remove_fd-registered}

abbrev one_fd : Loop
one_fd = record {
  fds = record blank { fd = 3 } ∷ [];
  fd_length = 1;
  fd_capacity = 1;
  fd_events = FdCallback.display_in ∷ [];
  timers = [];
}

one_fd-IsArray : IsArray one_fd
one_fd-IsArray = record { events = refl; below = omega arith; capacity = refl }

loop_add_fd-registered_example :
    IsArray (loop_add_fd one_fd true 4 no_events FdCallback.reply_in)
    × (registered (loop_add_fd one_fd true 4 no_events FdCallback.reply_in)
        ≡ registered one_fd ++ (4, FdCallback.reply_in) ∷ [])
loop_add_fd-registered_example =
    loop_add_fd-registered one_fd true 4 no_events FdCallback.reply_in one_fd-IsArray

loop_remove_fd-registered_example :
    (registered (loop_remove_fd one_fd 3).0 ≡ without_fd 3 (registered one_fd))
    × ((loop_remove_fd one_fd 3).1 ≡ has_fd 3 (registered one_fd))
    × IsArray (loop_remove_fd one_fd 3).0
loop_remove_fd-registered_example = loop_remove_fd-registered one_fd 3 one_fd-IsArray

expiry_after-negative_example :
    is_expired (at 5 0) (record {
      addr = 1;
      callback = Callback.keyboard_repeat 0;
      expiry = expiry_after (at 5 0) (negsuc 0);
      removed = false;
    })
    ≡ true
expiry_after-negative_example =
    expiry_after-negative 5 0 5 0 1 (Callback.keyboard_repeat 0) false (omega arith) (omega arith)
      (omega arith)

is_expired-after_example :
    is_expired (at_ns 6200000000) (record {
      addr = 1;
      callback = Callback.set_time;
      expiry = expiry_after (at 4 700000000) (pos 1500);
      removed = false;
    })
    ≡ ltb 6200000000 6200000000
is_expired-after_example =
    is_expired-after 1 4 700000000 1500 6200000000 Callback.set_time false (omega arith)
