-- ===== src/AuthPam/Conversation.antt =====
-- The conversation of src/auth-pam.c with any PAM module.
use dewlock.Base.{
  ℕ, suc, ◌+◌, ◌≤◌, ◌≡◌, refl, Bool, true, false, Option, none, some, List, [], ◌∷◌, ◌++◌, arith,
}
use dewlock.AuthPam.{
  Message, Replied, Module, finish, converse, reply_loop, handle_conversation, authenticate, blank,
}

-- The responses that hold a text.
abbrev pub handed : List (Option (List ℕ)) → ℕ
handed [] = 0
handed (none ∷ rs) = handed rs
handed (some text ∷ rs) = suc (handed rs)

abbrev pub held : Option (List ℕ) → ℕ
held none = 0
held (some text) = 1

handed-append : (xs ys : List (Option (List ℕ))) → handed (xs ++ ys) ≡ handed xs + handed ys
handed-append [] ys = omega arith
handed-append (none ∷ xs) ys = handed-append xs ys
handed-append (some text ∷ xs) ys = omega (arith, handed-append xs ys)

handed-blank : (ms : List Message) → handed (blank ms) ≡ 0
handed-blank [] = refl
handed-blank (m ∷ ms) = handed-blank ms

-- What a conversation hands out is gone from `state->password`.
abbrev Spends : Option (List ℕ) → Replied → Type 0
Spends password r = handed r.resp + held r.password ≤ held password

reply_loop-Spends :
    (ms : List Message) (password : Option (List ℕ)) → Spends password (reply_loop ms password)
unfolding reply_loop
reply_loop-Spends [] password = omega arith
reply_loop-Spends (m ∷ ms) none = ground (arith, reply_loop-Spends ms none, handed-blank ms)
reply_loop-Spends (m ∷ ms) (some text) =
    ground (arith, reply_loop-Spends ms none, reply_loop-Spends ms (some text), handed-blank ms)

handle_conversation-Spends :
    (allocated : Bool) (ms : List Message) (password : Option (List ℕ))
    → Spends password (handle_conversation allocated ms password)
unfolding handle_conversation
handle_conversation-Spends false ms password = omega arith
handle_conversation-Spends true ms password = reply_loop-Spends ms password

-- Whatever a PAM module asks, in however many conversations, it is given the password at most once
-- for one `pam_authenticate`, and not at all if there is none.
pub authenticate-once :
    (m : Module) (password : Option (List ℕ))
    → handed (authenticate m password).given ≤ held password
unfolding authenticate
authenticate-once (finish status) password = omega arith
authenticate-once (converse allocated ms next) password =
    let r = handle_conversation allocated ms password in
    omega (
      arith,
      handed-append r.resp (authenticate (next r.status r.resp) r.password).given,
      handle_conversation-Spends allocated ms password,
      authenticate-once (next r.status r.resp) r.password,
    )
