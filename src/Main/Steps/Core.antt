-- ===== src/Main/Steps/Core.antt =====
-- The part of the state that the handlers share, and the steps that they are made of.
use dewlock.Base.{
  ℕ, suc, ◌≡◌, refl, Bool, true, false, Option, none, some, List, [], ◌∷◌, ◌++◌, if◌then◌else◌, All,
  get_elem?, set,
}
use dewlock.SafeBuf.{Sbuf, sbuf_clear}
use dewlock.Loop.{
  Callback, set_auth_idle, clear_password, set_time, keyboard_repeat, FdCallback, Pollfd, Timer,
  mark_removed,
}
use dewlock.State.{State, Seat}
use dewlock.Password.{backspace, append_ch}
use dewlock.Seat.{new_seat}

-- The fields of the state that point to a timer; `dewlock_seat_t` has one for each seat.
pub data Slot : Type 0 where
  input_idle auth_idle clear clock : Slot
  repeat : ℕ → Slot

-- Where the program keeps the pointer to a timer with the callback; none is ever made for
-- `input_idle_timer`.
abbrev pub slot_of : Callback → Slot
slot_of set_auth_idle = auth_idle
slot_of clear_password = clear
slot_of set_time = clock
slot_of (keyboard_repeat i) = repeat i

-- The fields themselves.
pub record Slots : Type 0 where
  pub input_idle_timer : Option ℕ
  pub auth_idle_timer : Option ℕ
  pub clear_password_timer : Option ℕ
  pub clock_timer : Option ℕ
  pub seats : List Seat

-- `kept` is what decides whether the main loop goes on: `run_display`, the descriptors with their
-- callbacks, and the replies to come.
pub record Core : Type 0 where
  pub kept : Bool × List Pollfd × List FdCallback × List ℕ
  pub timers : List Timer
  pub next_addr : ℕ
  pub slots : Slots
  pub password : Sbuf

abbrev pub slots_of : State → Slots
slots_of s = record {
  input_idle_timer = s.input_idle_timer;
  auth_idle_timer = s.auth_idle_timer;
  clear_password_timer = s.clear_password_timer;
  clock_timer = s.clock_timer;
  seats = s.seats;
}

abbrev pub core : State → Core
core s = record {
  kept = (s.run_display, s.eventloop.fds, s.eventloop.fd_events, s.os.replies);
  timers = s.eventloop.timers;
  next_addr = s.os.next_addr;
  slots = slots_of s;
  password = s.password;
}

abbrev pub repeat_of : Option Seat → Option ℕ
repeat_of none = none
repeat_of (some seat) = seat.repeat_timer

unfoldable pub pointer : Slot → Slots → Option ℕ
pointer input_idle c = c.input_idle_timer
pointer auth_idle c = c.auth_idle_timer
pointer clear c = c.clear_password_timer
pointer clock c = c.clock_timer
pointer (repeat i) c = repeat_of (get_elem? c.seats i)

abbrev pub put_repeat : Option Seat → ℕ → Option ℕ → List Seat → List Seat
put_repeat none i v seats = seats
put_repeat (some seat) i v seats = set seats i (record seat { repeat_timer = v })

unfoldable pub put : Slot → Option ℕ → Slots → Slots
put input_idle v c = record c { input_idle_timer = v }
put auth_idle v c = record c { auth_idle_timer = v }
put clear v c = record c { clear_password_timer = v }
put clock v c = record c { clock_timer = v }
put (repeat i) v c = record c { seats = put_repeat (get_elem? c.seats i) i v c.seats }

abbrev pub marked : Option ℕ → List Timer → List Timer
marked none ts = ts
marked (some a) ts = mark_removed a ts

-- The timer in the slot is marked, and the slot is emptied.
abbrev pub dropped : Slot → Core → Core
dropped k c = record c { timers = marked (pointer k c.slots) c.timers; slots = put k none c.slots }

-- The timer that an allocation makes, if it succeeds.
abbrev pub listed : Option Timer → List Timer → List Timer
listed none ts = ts
listed (some t) ts = t ∷ ts

abbrev pub addr_of : Option Timer → Option ℕ
addr_of none = none
addr_of (some t) = some t.addr

abbrev pub IsNew : Callback → ℕ → Option Timer → Type 0
IsNew cb a none = Unit
IsNew cb a (some t) = (t.addr ≡ a) × (t.callback ≡ cb) × (t.removed ≡ false)

-- A new timer, whose address goes to the slot.
abbrev pub armed : Slot → Option Timer → Core → Core
armed k o c = record c {
  timers = listed o c.timers;
  next_addr = suc c.next_addr;
  slots = put k (addr_of o) c.slots;
}

-- The steps of the handlers. The code points that keys type have the property `Ok`.
pub data Moves (Ok : ℕ → Type 0) : State → State → Type 0 where
  stays : {s t : State} → core t ≡ core s → Moves Ok s t
  drops : {s t : State} (k : Slot) → core t ≡ dropped k (core s) → Moves Ok s t
  arms :
      {s t : State} (cb : Callback) (o : Option Timer)
      → IsNew cb s.os.next_addr o
      → pointer (slot_of cb) (slots_of s) ≡ none
      → pointer (slot_of cb) (slots_of t) ≡ addr_of o
      → core t ≡ armed (slot_of cb) o (core s)
      → Moves Ok s t
  wipes :
      {s t : State} → core t ≡ record (core s) { password = sbuf_clear s.password } → Moves Ok s t
  erases :
      {s t : State}
      → core t ≡ record (core s) { password = (backspace s.password).0 }
      → Moves Ok s t
  types :
      {s t : State} (c : ℕ)
      → (c ≡ 0 → ⊥)
      → Ok c
      → core t ≡ record (core s) { password = append_ch s.password c }
      → Moves Ok s t
  tunes :
      {s t : State} (i : ℕ) (seat seat' : Seat)
      → get_elem? s.seats i ≡ some seat
      → seat'.repeat_timer ≡ seat.repeat_timer
      → (Ok seat.repeat_codepoint → Ok seat'.repeat_codepoint)
      → core t ≡ record (core s) { slots = record (slots_of s) { seats = set s.seats i seat' } }
      → Moves Ok s t
  adds :
      {s t : State}
      → core t
        ≡ record (core s) { slots = record (slots_of s) { seats = s.seats ++ new_seat ∷ [] } }
      → Moves Ok s t
  trans : {s t u : State} → Moves Ok s t → Moves Ok t u → Moves Ok s u

module _ {Ok : ℕ → Type 0} where
  pub same : {s : State} → Moves Ok s s
  same = stays refl

  pub Moves-if :
      (b : Bool) {s t u : State} → Moves Ok s t → Moves Ok s u → Moves Ok s (if b then t else u)
  Moves-if true p q = p
  Moves-if false p q = q

-- The code points that the seats would repeat are as the keys' are.
abbrev pub AreOk : (ℕ → Type 0) → List Seat → Type 0
AreOk Ok = All λ seat. Ok seat.repeat_codepoint
