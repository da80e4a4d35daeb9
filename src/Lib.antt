-- ===== src/Lib.antt =====
-- dewlock, a screen locker for Wayland in C. The program locks the session through the compositor,
-- shows a clock or a password form on every output, collects the password in locked memory, and
-- asks a child process over a pipe whether it is right; a reply that says yes ends the main loop,
-- and the clean-up behind the loop unlocks the session.
--
-- How the parts interact. main.c adds three descriptors to the event loop (src/loop.c): the
-- display, the pipe of replies, the pipe that a SIGUSR1 writes to. The display's events go to the
-- handlers of outputs (main.c) and of the keyboard (src/seat.c). A key goes to src/password.c,
-- which edits the buffer (src/safebuf.c, src/unicode.c), sends a request (src/auth.c) and arms
-- timers of the loop. A change of the state damages the surfaces, which src/render.c draws into
-- buffers of src/ctx.c. src/clock.c renews the clock by a timer.
--
-- The child that checks passwords is forked by src/auth.c; it runs the loop of src/auth-pam.c or
-- of src/auth-shadow.c. src/cli.c reads the command line, src/config.c the configuration and the
-- images that the outputs show.
--
-- Files. Each file opens with the code that it is about.
--   Base           shared names, Boolean tests, lists, signed integers
--   Unicode        src/unicode.c; Unicode/Utf8 is UTF-8 as a specification
--   Result         src/result.h
--   SafeBuf        src/safebuf.c
--   Strings        src/strcmp.h, and functions of the C library on strings
--   Auth           src/auth.c; Auth/Spawn is its fork
--   AuthPam        src/auth-pam.c
--   AuthShadow     src/auth-shadow.c
--   Loop           src/loop.c, its state and operations
--   Ctx            src/ctx.c
--   Render         src/render.c, its decisions
--   Keysym         the keys that src/password.c names
--   State          src/dewlock.h, with the surroundings of the handlers
--   Password       src/password.c; Password/Text relates the buffer to a stack of characters
--   Clock          src/clock.c
--   Seat           src/seat.c
--   Outputs        the surfaces of main.c
--   Background     the modes of src/background.c and the layout of an image
--   Cli            src/cli.c
--   Log            src/log.c
--   Config         src/config.c, src/color.h
--   Main           the callbacks, loop_poll and the main loop of main.c
--   Main/Steps     the handlers as steps on the timers, the seats and the password
--   Main/Pointers  the pointers to timers; Main/Contents the password, through a run of the program
--   Main/Session   a session of typing as a specification
--   Main/Startup   main from its first line to the loop; Main/Daemonize is daemonize
--   Samples        a small locker for the tests
-- The functions have the names of the source. A handler takes the state and returns the new one;
-- where the source calls exit, the state says so and nothing more runs. Assertions are taken as in
-- the default build of the Makefile, which compiles them out.
--
-- Outside code. The answers of system calls are lists that the caller gives: what read, write,
-- mlock, shm_open and calloc answer, the readings of the clock, the masks of poll, the Wayland
-- events. libxkbcommon's answers come with the events, cairo's success with the creation of a
-- buffer, the font's metrics as the number of asterisks that fit. Objects of Wayland are given by
-- whether they exist, pointers to timers by addresses that are never handed out twice. What PAM
-- does for one check is a tree of conversations, crypt and wordexp are functions, getopt_long is
-- the list of its answers, and the start takes the answers of its set-up calls as a record.
--
-- Bounds. The arithmetic of size_t, uint32_t and the casts to int is written out. The loop of
-- lock_buffer has the source's five rounds, that of anonymous_shm_open its hundred. The digits of
-- a number n are computed with n + 1 rounds of fuel, more than it has digits. The loop that escapes
-- the spaces of a path has one round more than the path has bytes, and each round removes one pair
-- of spaces. The loops of auth_run take fuel; each round takes a request out of the pipe, so one
-- more than its bytes is enough. The main loop runs over the list of rounds to come; a run that is
-- not over is an outcome of its own.
--
-- Not modelled: the texts of the help and of cfg_debug, the loading and painting of images in
-- src/background.c, and all drawing but the channels of a colour. These are output,
-- or calls of other libraries. The memory for the three descriptors that main adds to the loop is
-- taken to be there, and the scale of an output not to be negative. The scales and places of an image are ratios of whole numbers, where
-- the source rounds to double.
pub mod Base
pub mod Unicode
pub mod Result
pub mod SafeBuf
pub mod Auth
pub mod AuthPam
pub mod AuthShadow
pub mod Loop
pub mod Ctx
pub mod Render
pub mod Keysym
pub mod State
pub mod Password
pub mod Clock
pub mod Seat
pub mod Strings
pub mod Outputs
pub mod Cli
pub mod Log
pub mod Config
pub mod Main
pub mod Background
pub mod Samples
