-- ===== src/AuthShadow/Init.antt =====
-- `auth_init` of src/auth-shadow.c.
use dewlock.Base.{ℕ, ◌≡◌, ◌↔◌, true, Option, some, List, arith}
use dewlock.Result.{is_ok}
use dewlock.Strings.{is_zero}
use dewlock.Auth.Spawn.{Spawned, spawn_result}
use dewlock.AuthShadow.{Drop, is_minus_one, stored_hash, auth_init}

-- The ids of the user are taken on, and those of root can not be had back.
abbrev pub GivesUpRoot : Drop → Type 0
GivesUpRoot d =
    (is_zero d.setgid ≡ true)
    × (is_zero d.setuid ≡ true)
    × (is_minus_one d.setuid_root ≡ true)
    × (is_minus_one d.setgid_root ≡ true)

-- The process goes on after `auth_init` just if the hash is there, root is given up for good, and the
-- child was spawned.
auth_init_iff :
    (passwd shadow : Option (List ℕ)) (d : Drop) (spawned : Spawned) (hash : List ℕ)
    → (auth_init passwd shadow d spawned ≡ some hash) ↔ (
        (stored_hash passwd shadow ≡ some hash)
        × GivesUpRoot d
        × (is_ok (spawn_result spawned) ≡ true))
unfolding auth_init
auth_init_iff passwd shadow d spawned hash = ground arith
