-- ===== src/Auth/Spawn.antt =====
-- `auth_spawn_child` of src/auth.c: the pipes, and the process that checks passwords. Pipe 0 carries
-- the requests and pipe 1 the replies.
use dewlock.Base.{Bool, true, false}
use dewlock.Result.{Result, ok, err_auth_pipe, err_auth_fork}

-- Which ends of the pipes a process holds: end 0 of a pipe reads, end 1 writes.
pub record Ends : Type 0 where
  pub request_read : Bool
  pub request_write : Bool
  pub reply_read : Bool
  pub reply_write : Bool

pub data Fork : Type 0 where
  forked fork_failed : Fork

-- The child goes into `auth_run` and never returns, so it is there only if the fork succeeded.
pub data Spawned : Type 0 where
  returned : Result → Spawned
  split : (parent child : Ends) → Spawned

pub auth_spawn_child : (first_pipe second_pipe : Bool) → Fork → Spawned
auth_spawn_child false second_pipe fork = returned err_auth_pipe
auth_spawn_child true false fork = returned err_auth_pipe
auth_spawn_child true true fork_failed = returned err_auth_fork
auth_spawn_child true true forked =
    split
      (record {
        request_read = false;
        request_write = true;
        reply_read = true;
        reply_write = false;
      })
      (record {
        request_read = true;
        request_write = false;
        reply_read = false;
        reply_write = true;
      })

-- The result of the locker's own side.
unfoldable pub spawn_result : Spawned → Result
spawn_result (returned res) = res
spawn_result (split parent child) = ok
