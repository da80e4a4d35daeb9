-- ===== src/Auth/Complete.antt =====
-- Transfers over the pipes of src/auth.c in which no call fails, in pieces of any size.
use dewlock.Base.{
  ℕ, zero, suc, ◌-◌, ◌/◌, ◌^◌, ◌≤◌, ◌<◌, ◌≡◌, refl, sym, ap, ◌∙◌, min, Bool, true, false, List, [],
  ◌∷◌, ◌++◌, append_assoc, append-nil, arith, All, length, length-drop, take, drop,
  take-append-drop, leb, if_true,
}
use dewlock.Auth.{
  Answer, some_bytes, no_bytes, interrupted, failed, Written, write_full, full, Received, read_full,
  size_bytes, size_of,
}

-- An answer after which the transfer goes on.
abbrev pub goes_on : Answer → Bool
goes_on (some_bytes k) = true
goes_on interrupted = true
goes_on no_bytes = false
goes_on failed = false

abbrev pub NoFailure : List Answer → Type 0
NoFailure = All λ a. goes_on a ≡ true

-- Everything is written.
pub record Sends (bs sent : List ℕ) (w : Written) : Type 0 where
  pub success : w.success ≡ true
  pub all : w.sent ≡ sent ++ bs
  pub script : NoFailure w.script

-- Everything wanted is read.
pub record Gets (need : ℕ) (got stream : List ℕ) (r : Received) : Type 0 where
  pub amount : r.amount ≡ full
  pub all : r.got ≡ got ++ take need stream
  pub left : r.pending ≡ drop need stream
  pub script : NoFailure r.script

take-nil : (k : ℕ) → take {A = ℕ} k [] ≡ []
take-nil zero = refl
take-nil (suc k) = refl

drop-nil : (k : ℕ) → drop {A = ℕ} k [] ≡ []
drop-nil zero = refl
drop-nil (suc k) = refl

take_append_take :
    (n m : ℕ) (xs : List ℕ)
    → n ≤ m
    → take n xs ++ take (m - min n (length xs)) (drop n xs) ≡ take m xs
take_append_take zero m xs h = let e : m - min 0 (length xs) ≡ m = omega arith in rw e refl
take_append_take (suc n) zero xs h = absurd (omega arith)
take_append_take (suc n) (suc m) [] h = take-nil (suc m - min (suc n) 0)
take_append_take (suc n) (suc m) (x ∷ xs) h =
    let e : suc m - min (suc n) (suc (length xs)) ≡ m - min n (length xs) = omega arith in
    rw e (ap (◌∷◌ x) (take_append_take n m xs (omega arith)))

drop-drop : (n m : ℕ) (xs : List ℕ) → n ≤ m → drop (m - min n (length xs)) (drop n xs) ≡ drop m xs
drop-drop zero m xs h = let e : m - min 0 (length xs) ≡ m = omega arith in rw e refl
drop-drop (suc n) zero xs h = absurd (omega arith)
drop-drop (suc n) (suc m) [] h = drop-nil (suc m - min (suc n) 0)
drop-drop (suc n) (suc m) (x ∷ xs) h =
    let e : suc m - min (suc n) (suc (length xs)) ≡ m - min n (length xs) = omega arith in
    rw e (drop-drop n m xs (omega arith))

pub write_full-Sends :
    (script : List Answer) (bs sent : List ℕ)
    → NoFailure script
    → Sends bs sent (write_full script bs sent)
unfolding write_full
write_full-Sends script [] sent q = record {
  success = refl;
  all = sym (append-nil sent);
  script = q;
}
write_full-Sends [] (b ∷ bs) sent q = record { success = refl; all = refl; script = tt }
write_full-Sends (some_bytes k ∷ script) (b ∷ bs) sent q =
    let rest = write_full-Sends script (drop k bs) (sent ++ (b ∷ take k bs)) q.1 in
    record {
      success = rest.success;
      all =
          rest.all
          ∙ (append_assoc sent (b ∷ take k bs) (drop k bs)
              ∙ ap (λ t. sent ++ (b ∷ t)) (take-append-drop k bs));
      script = rest.script;
    }
write_full-Sends (no_bytes ∷ script) (b ∷ bs) sent q = ground (arith, q.0)
write_full-Sends (interrupted ∷ script) (b ∷ bs) sent q = write_full-Sends script (b ∷ bs) sent q.1
write_full-Sends (failed ∷ script) (b ∷ bs) sent q = ground (arith, q.0)

pub read_full-Gets :
    (script : List Answer) (got : List ℕ) (need : ℕ) (stream : List ℕ)
    → NoFailure script
    → need ≤ length stream
    → Gets need got stream (read_full script got need stream)
unfolding read_full
read_full-Gets script got zero stream q h = record {
  amount = refl;
  all = sym (append-nil got);
  left = refl;
  script = q;
}
read_full-Gets [] got (suc need) [] q h = absurd (omega arith)
read_full-Gets [] got (suc need) (p ∷ ps) q h =
    if_true (Gets (suc need) got (p ∷ ps)) (leb (suc need) (length (p ∷ ps))) _ _
      (ground (arith, h)) (record { amount = refl; all = refl; left = refl; script = tt })
read_full-Gets (failed ∷ script) got (suc need) stream q h = ground (arith, q.0)
read_full-Gets (some_bytes k ∷ script) got (suc need) [] q h = absurd (omega arith)
read_full-Gets (some_bytes k ∷ script) got (suc need) (p ∷ ps) q h =
    let n = min k need in
    let rest =
      read_full-Gets script (got ++ (p ∷ take n ps)) (need - min n (length ps)) (drop n ps) q.1
        (omega (arith, length-drop n ps)) in
    record {
      amount = rest.amount;
      all =
          rest.all
          ∙ (append_assoc got (p ∷ take n ps) _
              ∙ ap (λ t. got ++ (p ∷ t)) (take_append_take n need ps (omega arith)));
      left = rest.left ∙ drop-drop n need ps (omega arith);
      script = rest.script;
    }
read_full-Gets (interrupted ∷ script) got (suc need) stream q h =
    read_full-Gets script got (suc need) stream q.1 h
read_full-Gets (no_bytes ∷ script) got (suc need) stream q h = ground (arith, q.0)

-- A number that fits is the number of its bytes.
pub size_of-size_bytes : (w n : ℕ) → n < 256 ^ w → size_of (size_bytes w n) ≡ n
unfolding size_of size_bytes
size_of-size_bytes zero n h = omega arith
size_of-size_bytes (suc w) n h = omega (arith, size_of-size_bytes w (n / 256) (omega arith))

pub length-size_bytes : (w n : ℕ) → length (size_bytes w n) ≡ w
unfolding size_bytes
length-size_bytes zero n = refl
length-size_bytes (suc w) n = ap suc (length-size_bytes w (n / 256))
