-- ===== src/Main/Contents.antt =====
-- What the password buffer holds through a run of the whole program.
use dewlock.Base.{
  ℕ, zero, suc, ◌<◌, ◌≡◌, ◌≢◌, refl, sym, subst, ◌∙◌, none, some, Bool, List, [], ◌∷◌, All,
  All-append, Option, arith, replicate, length, length-replicate, get_elem?, set, if_true,
}
use dewlock.Result.{is_ok}
use dewlock.SafeBuf.{Sbuf, sbuf_clear}
use dewlock.SafeBuf.Contents.{sbuf_create-zeroes}
use dewlock.Unicode.Utf8.{max_char}
use dewlock.Loop.{Pollfd, FdCallback}
use dewlock.State.{State, Seat}
use dewlock.Password.{backspace, append_ch}
use dewlock.Password.Text.{text, Holds, sbuf_clear-Holds}
use dewlock.Password.Buffer.{append_ch-Holds, backspace-Holds}
use dewlock.Main.{Round, free_timer}
use dewlock.Seat.{new_seat}
use dewlock.Main.Steps.Core.{
  core, Slot, repeat, slot_of, Slots, slots_of, Core, put_repeat, put, Moves, stays, drops, arms,
  wipes, erases, types, tunes, adds, AreOk,
}
use dewlock.Main.Steps.Capacity.{sbuf_clear-cap, backspace-cap, append_ch-cap}
use dewlock.Main.Steps.Callbacks.{All-get, Releases, empties, marks}
use dewlock.Main.Invariants.{IsInvariant, KeysOk}
use dewlock.Main.Startup.{World, start}
use dewlock.Main.Startup.Program.{program}
use dewlock.Main.Startup.Keys.{WorldOk}
use dewlock.Main.Startup.Traversal.{made, given, Begins}
use dewlock.Main.Startup.Invariants.{InProgram, InProgram-map, program-Inv}

-- A code point that UTF-8 can encode.
abbrev pub IsChar : ℕ → Type 0
IsChar c = c < max_char

-- The buffer has the size that `main` gives it, and holds the text of some characters, NUL, and then
-- anything.
pub data HasText (pw : Sbuf) : Type 0 where
  has_text : (cs : List ℕ) → Holds pw cs → pw.cap ≡ 1024 → HasText pw

module _ {pw : Sbuf} where
  sbuf_clear-HasText : HasText pw → HasText (sbuf_clear pw)
  sbuf_clear-HasText (has_text cs h size) =
      has_text [] (sbuf_clear-Holds h) (sbuf_clear-cap pw ∙ size)

  backspace-HasText : HasText pw → HasText (backspace pw).0
  backspace-HasText (has_text cs h size) =
      has_text _ (backspace-Holds cs h).0 (backspace-cap pw ∙ size)

  append_ch-HasText : (c : ℕ) → c ≢ 0 → IsChar c → HasText pw → HasText (append_ch pw c)
  append_ch-HasText c positive small (has_text cs h size) =
      has_text _ (append_ch-Holds h c (omega (arith, positive)) small) (append_ch-cap pw c ∙ size)

set-AreOk :
    (seats : List Seat) (i : ℕ) (old seat : Seat)
    → get_elem? seats i ≡ some old
    → (IsChar old.repeat_codepoint → IsChar seat.repeat_codepoint)
    → AreOk IsChar seats
    → AreOk IsChar (set seats i seat)
set-AreOk [] i old seat e f ok = tt
set-AreOk (x ∷ xs) zero old seat e f ok = (f (All-get IsChar (x ∷ xs) zero old e ok), ok.1)
set-AreOk (x ∷ xs) (suc i) old seat e f ok = (ok.0, set-AreOk xs i old seat e f ok.1)

put_repeat-AreOk :
    (o : Option Seat) (i : ℕ) (v : Option ℕ) (seats : List Seat)
    → get_elem? seats i ≡ o
    → AreOk IsChar seats
    → AreOk IsChar (put_repeat o i v seats)
put_repeat-AreOk none i v seats e ok = ok
put_repeat-AreOk (some seat) i v seats e ok = set-AreOk seats i seat _ e (λ c. c) ok

put-AreOk :
    (k : Slot) (v : Option ℕ) (p : Slots) → AreOk IsChar p.seats → AreOk IsChar (put k v p).seats
unfolding put
put-AreOk (repeat i) v p ok = put_repeat-AreOk (get_elem? p.seats i) i v p.seats refl ok
put-AreOk k v p ok = ok

-- With the code points that the seats would repeat.
abbrev Typed : Core → Type 0
Typed c = AreOk IsChar c.slots.seats × HasText c.password

data IsTyped (ex : Option ℕ) (s : State) : Type 0 where
  typed : Typed (core s) → IsTyped ex s

in_core : {ex : Option ℕ} {s : State} {c : Core} → core s ≡ c → Typed c → IsTyped ex s
in_core e h = typed (subst Typed (sym e) h)

Moves-IsTyped : {ex : Option ℕ} {s t : State} → Moves IsChar s t → IsTyped ex s → IsTyped ex t
Moves-IsTyped (stays e) (typed h) = in_core e h
Moves-IsTyped {ex} {s} (drops k e) (typed h) = in_core e (put-AreOk k none (slots_of s) h.0, h.1)
Moves-IsTyped {ex} {s} (arms cb o new before now e) (typed h) =
    in_core e (put-AreOk (slot_of cb) _ (slots_of s) h.0, h.1)
Moves-IsTyped (wipes e) (typed h) = in_core e (h.0, sbuf_clear-HasText h.1)
Moves-IsTyped (erases e) (typed h) = in_core e (h.0, backspace-HasText h.1)
Moves-IsTyped (types c n ok e) (typed h) = in_core e (h.0, append_ch-HasText c n ok h.1)
Moves-IsTyped {ex} {s} (tunes i old seat g r ok e) (typed h) =
    in_core e (set-AreOk s.seats i old seat g ok h.0, h.1)
Moves-IsTyped {ex} {s} (adds e) (typed h) = in_core e (
  All-append (λ (x : Seat). IsChar x.repeat_codepoint) s.seats (new_seat ∷ []) h.0
      (omega arith, tt),
  h.1,
)
Moves-IsTyped (Moves.trans p q) h = Moves-IsTyped q (Moves-IsTyped p h)

Releases-IsTyped :
    {k : Slot} {s u : State} (a : ℕ) → Releases k s u → IsTyped none s → IsTyped (some a) u
Releases-IsTyped {k} {s} a (empties e) (typed h) =
    in_core e (put-AreOk k none (slots_of s) h.0, h.1)
Releases-IsTyped {k} {s} a (marks e) (typed h) = in_core e (put-AreOk k none (slots_of s) h.0, h.1)

loops-IsTyped :
    {ex : Option ℕ} {s t : State} (k : Bool × List Pollfd × List FdCallback × List ℕ)
    → core t ≡ record (core s) { kept = k }
    → IsTyped ex s
    → IsTyped ex t
loops-IsTyped k e (typed h) = in_core e h

passes-IsTyped : {s : State} (a : ℕ) → IsTyped none s → IsTyped (some a) s
passes-IsTyped a (typed h) = typed h

frees-IsTyped : {s : State} (a : ℕ) → IsTyped (some a) s → IsTyped none (free_timer a s)
unfolding free_timer
frees-IsTyped a (typed h) = typed h

codes_of : {ex : Option ℕ} {s : State} → IsTyped ex s → AreOk IsChar s.seats
codes_of (typed h) = h.0

IsTyped-IsInvariant : IsInvariant IsChar IsTyped
IsTyped-IsInvariant = record {
  moves = Moves-IsTyped;
  loops = loops-IsTyped;
  codes = codes_of;
  releases = λ a t f waits r h. Releases-IsTyped a r h;
  passes = λ a t f r h. passes-IsTyped a h;
  frees = frees-IsTyped;
}

zeros-HasText :
    (n : ℕ) → suc n ≡ 1024 → HasText (record { buf = replicate (suc n) 0; cap = suc n; len = 0 })
unfolding text
zeros-HasText n e =
    has_text []
      (record {
        rest = replicate n 0;
        contents = refl;
        len = refl;
        sized = length-replicate {A = ℕ} (suc n) 0;
        small = omega (arith, e);
        chars = tt;
      })
      e

begin :
    (g : Slots × List ℕ) (w : World)
    → AreOk IsChar g.0.seats
    → length w.found ≡ 1024
    → (s : State) → Begins w g s
    → IsTyped none s
begin g w ok sized s b = typed (
  subst (λ (q : Slots × List ℕ). AreOk IsChar q.0.seats) (sym b.begun) ok,
  subst HasText (sym (b.password ∙ created)) (zeros-HasText 1023 refl),
)
  where
    created : (made w b.old).sbuf ≡ record { buf = replicate 1024 0; cap = 1024; len = 0 }
    created =
        sbuf_create-zeroes b.old 1024 w.allocated w.found w.locks w.lock_supported sized
        ∙ if_true (λ (x : Sbuf). x ≡ record { buf = replicate 1024 0; cap = 1024; len = 0 })
            (is_ok (made w b.old).result) _ b.old b.created refl

-- If every key types a code point that UTF-8 can encode, so do the seats that are there at the start
-- when they repeat, and the memory for the password has the 1024 bytes that were asked for, then whatever else happens in the program, a password buffer holds the
-- text of some characters with a NUL behind it, all in 1024 bytes, when the program waits for the
-- compositor, when its rounds are used up, when a callback has called `exit`, and behind the
-- clean-up.
pub program-HasText :
    (rs : List Round) (w : World) (s : State)
    → All (KeysOk IsChar) rs
    → WorldOk IsChar w
    → AreOk IsChar s.seats
    → length w.found ≡ 1024
    → InProgram (λ t. HasText t.password) (program rs (start w s))
program-HasText rs w s keys pressed ok sized = InProgram-map text_of _ (
    program-Inv IsTyped-IsInvariant rs keys w pressed (given s) (begin (given s) w ok sized) s refl)
  where
    text_of : (t : State) → IsTyped none t → HasText t.password
    text_of t (typed h) = h.1
