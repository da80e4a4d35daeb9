-- ===== src/Auth/Request.antt =====
-- What `auth_write_request` of src/auth.c leaves of the password.
use dewlock.Base.{ℕ, ◌≡◌, List, arith}
use dewlock.SafeBuf.{Sbuf, sbuf_clear}
use dewlock.Auth.{Answer, auth_write_request}

pub auth_write_request-clears :
    (script : List Answer) (pw : Sbuf) (sent : List ℕ)
    → (auth_write_request script pw sent).pw ≡ sbuf_clear pw
unfolding auth_write_request
auth_write_request-clears script pw sent = ground arith
