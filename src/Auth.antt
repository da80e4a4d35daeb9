-- ===== src/Auth.antt =====
-- src/auth.c: the two pipes between the locker and the process that checks passwords.
-- A script lists what the system calls answer, one entry for a call, and goes on with full success.
-- So it stands for every run that returns: a call that blocks for ever has no answer.
mod Wire
pub mod Transfer
pub mod Complete
pub mod Request
pub mod RoundTrip
pub mod Shrinks
pub mod Spawn
pub mod Messages
mod Examples
unfoldable pub use Wire.*
use dewlock.Base.{
  ℕ, zero, suc, ◌+◌, ◌-◌, ◌*◌, ◌/◌, ◌%◌, ◌^◌, min, Bool, true, false, List, [], ◌∷◌, ◌++◌, leb,
  ◌==◌, if◌then◌else◌, length, take, drop, get_or,
}
use dewlock.Result.{
  Result, ok, err_auth_read, err_auth_write, err_auth_eof, err_auth_invalid, is_ok,
}
use dewlock.SafeBuf.{Sbuf, Mlock, Created, sbuf_create, sbuf_clear}

pub record Requested : Type 0 where
  pub result : Result
  pub pw : Sbuf
  pub sent : List ℕ
  pub script : List Answer

-- Both ways out go through `sbuf_clear`, the label `out`.
unfoldable pub auth_write_request : List Answer → Sbuf → List ℕ → Requested
auth_write_request script pw sent =
    let size = (pw.len + 1) % 2 ^ 64 in
    let head = write_full script (size_bytes sizeof_size size) sent in
    let body = write_full head.script (take size pw.buf) head.sent in
    if head.success
    then (if body.success
        then record { result = ok; pw = sbuf_clear pw; sent = body.sent; script = body.script }
        else record {
          result = err_auth_write;
          pw = sbuf_clear pw;
          sent = body.sent;
          script = body.script;
        })
    else record {
      result = err_auth_write;
      pw = sbuf_clear pw;
      sent = head.sent;
      script = head.script;
    }

-- What the child's calls of the allocator and of `mlock` answer.
pub record Memory : Type 0 where
  pub allocated : Bool
  pub found : ℕ → List ℕ
  pub answers : List Mlock
  pub supported : Bool

pub record Read : Type 0 where
  pub result : Result
  pub pw : Sbuf
  pub stream : List ℕ
  pub script : List Answer

abbrev read_into : Sbuf → ℕ → Received → Read
read_into pw size r = elim r.amount [
  | full ↦
      if get_or r.got (size - 1) 0 == 0
      then record {
        result = ok;
        pw = record pw { buf = r.got; len = size - 1 };
        stream = r.pending;
        script = r.script;
      }
      else record {
        result = err_auth_invalid;
        pw = record pw { buf = r.got };
        stream = r.pending;
        script = r.script;
      }
  | eof ↦ record { result = err_auth_read; pw = pw; stream = r.pending; script = r.script }
  | broken ↦ record {
    result = err_auth_read;
    pw = record pw { buf = r.got ++ drop (length r.got) pw.buf };
    stream = r.pending;
    script = r.script;
  }
]

read_body : Memory → List Answer → Sbuf → ℕ → List ℕ → Read
read_body m script pw size stream =
    let made = sbuf_create pw size m.allocated (m.found size) m.answers m.supported in
    let body = read_full script [] size stream in
    if size == 0
    then record { result = err_auth_invalid; pw = pw; stream = stream; script = script }
    else (if is_ok made.result
        then read_into made.sbuf size body
        else record { result = made.result; pw = pw; stream = stream; script = script })

unfoldable pub auth_read_request : Memory → List Answer → Sbuf → List ℕ → Read
unfolding read_body
auth_read_request m script pw stream =
    let head = read_full script [] sizeof_size stream in
    elim head.amount [
      | full ↦ read_body m head.script pw (size_of head.got) head.pending
      | eof ↦ record { result = err_auth_eof; pw = pw; stream = head.pending; script = head.script }
      | broken ↦ record {
        result = err_auth_read;
        pw = pw;
        stream = head.pending;
        script = head.script;
      }
    ]

-- A `bool` is one byte.
abbrev pub bool_byte : Bool → ℕ
bool_byte true = 1
bool_byte false = 0

unfoldable pub auth_write_reply : List Answer → Bool → List ℕ → Result × List ℕ × List Answer
auth_write_reply script success sent =
    let w = write_full script (bool_byte success ∷ []) sent in
    (if w.success then ok else err_auth_write, w.sent, w.script)

pub record Reply : Type 0 where
  pub result : Result
  pub success : Bool
  pub stream : List ℕ
  pub script : List Answer

unfoldable pub auth_read_reply : List Answer → List ℕ → Reply
auth_read_reply script stream =
    let r = read_full script [] 1 stream in
    elim r.amount [
      | full ↦ record {
        result = ok;
        success = if get_or r.got 0 0 == 0 then false else true;
        stream = r.pending;
        script = r.script;
      }
      | eof ↦ record {
        result = err_auth_read;
        success = false;
        stream = r.pending;
        script = r.script;
      }
      | broken ↦ record {
        result = err_auth_read;
        success = false;
        stream = r.pending;
        script = r.script;
      }
    ]
