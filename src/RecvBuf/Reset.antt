-- ===== src/RecvBuf/Reset.antt =====
-- `RecvBuf::reset` on every buffer that the methods can make.
use dmludp.Prelude.{ℕ, ◌≡◌, refl, ◌∙◌, List, some, arith}
use dmludp.Error.{Result, ok}
use dmludp.RecvBuf.{RecvBuf, new, write, emit, mark_in_order, reset, shutdown}

-- One call of a method that changes the buffer, with any arguments.
pub data Step (r : RecvBuf) : RecvBuf → Type 0 where
  wrote :
      (bytes : List ℕ) (off : ℕ) (res : Result (Unit {0})) (r' : RecvBuf)
      → write r bytes off ≡ some (res, r')
      → Step r r'
  emitted :
      (out out' : List ℕ) (res : Result ℕ) (r' : RecvBuf)
      → emit r out ≡ some (res, r', out')
      → Step r r'
  was_reset : (size : ℕ) → Step r (reset r size).1
  was_shut : Step r (shutdown r)

pub data Reach (r : RecvBuf) : RecvBuf → Type 0 where
  here : Reach r r
  next : {t u : RecvBuf} → Reach r t → Step t u → Reach r u

len-write :
    (r r' : RecvBuf) (bytes : List ℕ) (off : ℕ) (res : Result (Unit {0}))
    → write r bytes off ≡ some (res, r')
    → r'.len ≡ r.len
unfolding write mark_in_order
len-write r r' bytes off res e = ground arith

len-emit :
    (r r' : RecvBuf) (out out' : List ℕ) (res : Result ℕ)
    → emit r out ≡ some (res, r', out')
    → r'.len ≡ r.len
unfolding emit
len-emit r r' out out' res e = ground arith

len-reset : (r : RecvBuf) (size : ℕ) → (reset r size).1.len ≡ r.len
unfolding reset
len-reset r size = ground arith

len_of_Reach : {r : RecvBuf} → Reach new r → r.len ≡ 0
unfolding new shutdown
len_of_Reach here = refl
len_of_Reach (next h (wrote bytes off res r' e)) = len-write _ r' bytes off res e ∙ len_of_Reach h
len_of_Reach (next h (emitted out out' res r' e)) = len-emit _ r' out out' res e ∙ len_of_Reach h
len_of_Reach (next {t = t} h (was_reset size)) = len-reset t size ∙ len_of_Reach h
len_of_Reach (next h was_shut) = len_of_Reach h

-- No method ever changes the length that `reset` compares with, which is 0 in a new buffer. So
-- whatever was done to the buffer, and whatever it has received, `reset` never reports
-- `FinalSize`: it accepts every final size and returns the whole of it.
pub reset_accepts_all : {r : RecvBuf} (size : ℕ) → Reach new r → (reset r size).0 ≡ ok size
unfolding reset
reset_accepts_all {r} size h = ground (arith, len_of_Reach h)
