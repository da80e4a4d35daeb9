-- ===== src/AuthPam/Samples.antt =====
-- A concrete PAM module for the tests, and the surroundings of its process.
use dewlock.Base.{
  ℕ, refl, true, false, Bool, ◌&&◌, Option, some, none, List, [], ◌∷◌, replicate, ◌==◌,
  if◌then◌else◌,
}
use dewlock.SafeBuf.{locked, eagain, lock_buffer}
use dewlock.AuthPam.{
  pam_success, Message, prompt_echo_off, text_info, Module, finish, converse, World,
}
use dewlock.Auth.Messages.{HasMemory}

-- A module that asks for the password, knows `ab`, and asks again if the answer is another.
abbrev pub judge : List (Option (List ℕ)) → Bool
judge (none ∷ some (a ∷ b ∷ []) ∷ []) = a == 97 && b == 98
judge _ = false

abbrev pub ask : List Message
ask =
    record { msg_style = text_info; copies = true }
    ∷ record { msg_style = prompt_echo_off; copies = true }
    ∷ []

abbrev pub small_module : Module
small_module = converse true ask λ status resp.
    if judge resp then finish pam_success else converse true ask λ status' resp'. finish status'

abbrev pub small_world : World
small_world = record {
  memory = λ round. record {
    allocated = true;
    found = λ n. replicate n 7;
    answers = eagain ∷ locked ∷ [];
    supported = true;
  };
  modules = λ round. small_module;
  pam_ends = true;
}

pub small_world-HasMemory : HasMemory small_world.memory
unfolding lock_buffer
small_world-HasMemory round = (refl, refl)
