-- ===== src/Auth/Wire.antt =====
-- `read_full` and `write_full` of src/auth.c, and the bytes of a `size_t`.
use dewlock.Base.{
  ℕ, zero, suc, ◌+◌, ◌-◌, ◌*◌, ◌/◌, ◌%◌, min, Bool, true, false, List, [], ◌∷◌, ◌++◌, leb,
  if◌then◌else◌, length, take, drop,
}

-- An answer of `read` or `write`: `some_bytes k` moves k + 1 bytes, or what there is if that is
-- less; `interrupted` is EINTR.
pub data Answer : Type 0 where
  some_bytes : ℕ → Answer
  no_bytes interrupted failed : Answer

pub record Written : Type 0 where
  pub success : Bool
  pub sent : List ℕ
  pub script : List Answer

-- `write_full`: the bytes left to write, and those in the pipe so far.
unfoldable pub write_full : List Answer → List ℕ → List ℕ → Written
write_full script [] sent = record { success = true; sent = sent; script = script }
write_full [] (b ∷ bs) sent = record { success = true; sent = sent ++ (b ∷ bs); script = [] }
write_full (some_bytes k ∷ script) (b ∷ bs) sent =
    write_full script (drop k bs) (sent ++ (b ∷ take k bs))
write_full (no_bytes ∷ script) (b ∷ bs) sent = record {
  success = false;
  sent = sent;
  script = script;
}
write_full (interrupted ∷ script) (b ∷ bs) sent = write_full script (b ∷ bs) sent
write_full (failed ∷ script) (b ∷ bs) sent = record {
  success = false;
  sent = sent;
  script = script;
}

-- The result of `read_full`: the size that was asked for, 0 or -1.
pub data Amount : Type 0 where
  full eof broken : Amount

pub record Received : Type 0 where
  pub amount : Amount
  pub got : List ℕ
  pub pending : List ℕ
  pub script : List Answer

-- A read of 0 bytes: the end of the stream, which is an error in mid-message.
abbrev pub at_end : List ℕ → List Answer → Received
at_end [] script = record { amount = eof; got = []; pending = []; script = script }
at_end (g ∷ gs) script = record { amount = broken; got = g ∷ gs; pending = []; script = script }

-- With no answers left the next read takes all that is wanted, and one more meets the end if the
-- stream holds less.
abbrev pub read_rest : List ℕ → ℕ → List ℕ → Received
read_rest got need [] = at_end got []
read_rest got need (p ∷ ps) =
    if leb need (length (p ∷ ps))
    then record {
      amount = full;
      got = got ++ take need (p ∷ ps);
      pending = drop need (p ∷ ps);
      script = [];
    }
    else record { amount = broken; got = got ++ (p ∷ ps); pending = []; script = [] }

-- `read_full`: the bytes got, how many are still wanted, and the bytes of the stream, which the
-- other side closes behind them. The answer `no_bytes` comes only at the end of the stream, so it
-- stands for no answer here.
unfoldable pub read_full : List Answer → List ℕ → ℕ → List ℕ → Received
read_full script got zero stream = record {
  amount = full;
  got = got;
  pending = stream;
  script = script;
}
read_full [] got (suc need) stream = read_rest got (suc need) stream
read_full (failed ∷ script) got (suc need) stream = record {
  amount = broken;
  got = got;
  pending = stream;
  script = script;
}
read_full (some_bytes k ∷ script) got (suc need) [] = at_end got script
read_full (some_bytes k ∷ script) got (suc need) (p ∷ ps) =
    let n = min k need in
    read_full script (got ++ (p ∷ take n ps)) (need - min n (length ps)) (drop n ps)
read_full (interrupted ∷ script) got (suc need) stream = read_full script got (suc need) stream
read_full (no_bytes ∷ script) got (suc need) stream = read_full script got (suc need) stream

-- The bytes of a `size_t` in memory, low byte first, and the number that such bytes stand for.
unfoldable pub size_bytes : ℕ → ℕ → List ℕ
size_bytes zero n = []
size_bytes (suc w) n = (n % 256) ∷ size_bytes w (n / 256)

unfoldable pub size_of : List ℕ → ℕ
size_of [] = 0
size_of (b ∷ bs) = b + 256 * size_of bs

abbrev pub sizeof_size : ℕ
sizeof_size = 8
