-- ===== src/Result.antt =====
-- `result_t` of src/result.h: what a fallible function of the program returns.
use dewlock.Base.{Bool, true, false}

pub data Result : Type 0 where
  ok error : Result
  err_ctx err_ctx_allocation err_ctx_cairo err_ctx_no_buffers : Result
  err_auth err_auth_pipe err_auth_fork err_auth_read err_auth_write err_auth_eof : Result
  err_auth_invalid : Result
  err_sbuf err_sbuf_alloc err_sbuf_lock : Result
  err_cli err_cli_invalid_option : Result
  err_loop err_loop_poll : Result
  err_daemon err_daemon_pipe err_daemon_handshake : Result

-- `res == OK`
abbrev pub is_ok : Result → Bool
is_ok Result.ok = true
is_ok _ = false

-- `res == ERR_AUTH_EOF`
abbrev pub is_eof : Result → Bool
is_eof Result.err_auth_eof = true
is_eof _ = false
