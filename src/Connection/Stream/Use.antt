-- ===== src/Connection/Stream/Use.antt =====
-- `Connection::read` of src/lib.rs on the receiver of a stream.
use dmludp.Prelude.{
  ℕ, ◌≡◌, ◌-◌, refl, sym, ap, ◌∙◌, subst, Bool, true, false, if◌then◌else◌, ◌==◌, ltb, min, List,
  [], ◌∷◌, length, some, none, Option, inl, inr, bind-some, add64, slice_to, copy_at, Bool-cases,
  if-false, if-true, ◌>>=◌,
}
use mathlib.Core.Option.{some-injective}
use dmludp.Error.{Result}
use dmludp.Floats.{Floats}
use dmludp.RangeBuf.{RangeBuf, consume, max_off as range_max_off, len as range_len}
use dmludp.RecvBuf.{RecvBuf, missing, ready, emit_loop, emit}
use dmludp.Connection.{Connection, read}
use dmludp.Connection.Slices.{IsHeld, AllHeld}
use dmludp.Connection.Stream.Arrive.{Held}

-- what the loop of `emit` returns
abbrev Read : Type 0
Read = Option (ℕ × List (ℕ × RangeBuf) × ℕ × List ℕ)

consume-IsHeld :
    (d : List ℕ) (k n : ℕ) (b b' : RangeBuf) → consume b n ≡ some b' → IsHeld d k b → IsHeld d k b'
unfolding consume
consume-IsHeld d k n b b' e h =
    let (pos, _, e1) = bind-some (add64 b.pos n) _ _ e in
    subst (IsHeld d k) (some-injective _ _ e1) (h.0, h.1)

-- If the loop returns, the chunks that it leaves stand in the stream.
abbrev Leaves : List ℕ → Read → Type 0
Leaves d none = Unit
Leaves d (some (n, cs, l, out)) = AllHeld d cs

bind-Leaves :
    {A : Type 0} (d : List ℕ) (m : Option A) (k : A → Read)
    → ((a : A) → m ≡ some a → Leaves d (k a))
    → Leaves d (m >>= k)
bind-Leaves d none k h = tt
bind-Leaves d (some a) k h = h a refl

if-Leaves :
    (d : List ℕ) (b : Bool) (x y : Read) → Leaves d x → Leaves d y → Leaves d (if b then x else y)
if-Leaves d true x y p q = p
if-Leaves d false x y p q = q

emit_loop-Leaves :
    (d : List ℕ) (m : List (ℕ × RangeBuf)) (last room len : ℕ) (out : List ℕ)
    → AllHeld d m
    → Leaves d (emit_loop last m room len out)
unfolding emit_loop
emit_loop-Leaves d [] last room len out a = tt
emit_loop-Leaves d ((k, b) ∷ rest) last room len out (h, a) =
    if-Leaves d (ltb 0 room) _ _
      (bind-Leaves d (range_max_off b) _ (λ max_off _. bind-Leaves d (range_len b) _ (λ data_len _.
        bind-Leaves d (missing max_off last data_len) _ (λ zero_len _.
          if-Leaves d (ltb zero_len room) _ _
            (bind-Leaves d (add64 len zero_len) _ (λ len' _.
              bind-Leaves d (add64 last zero_len) _ (λ at _.
                bind-Leaves d (slice_to b.bytes (min data_len (room - zero_len))) _ (λ src _.
                  bind-Leaves d (copy_at out len' src) _ (λ out' _.
                    bind-Leaves d (add64 at (min data_len (room - zero_len))) _ (λ last' _.
                      if-Leaves d (ltb (min data_len (room - zero_len)) data_len) _ _
                        (bind-Leaves d (consume b (min data_len (room - zero_len))) _
                          (λ b' used. (consume-IsHeld d k _ b b' used h, a)))
                        (emit_loop-Leaves d rest last' (room - zero_len) len' out' a)))))))
            (if-Leaves d (zero_len == room) _ _
              (bind-Leaves d (add64 last zero_len) _
                (λ last' _. bind-Leaves d (add64 len zero_len) _ (λ len' _. (h, a))))
              (bind-Leaves d (add64 last room) _ (λ last' _. (h, a))))))))
      (h, a)

emit-AllHeld :
    (d : List ℕ) (s s' : RecvBuf) (out out' : List ℕ) (r : Result ℕ)
    → emit s out ≡ some (r, s', out')
    → AllHeld d s.chunks
    → AllHeld d s'.chunks
unfolding emit ready
emit-AllHeld d s s' out out' r e a = elim (Bool-cases (ready s)) [
  | inl some_chunk ↦
      let ((last, cs, len, out1), looped, e1) =
        bind-some (emit_loop s.last_maxoff s.chunks (length out) 0 out) _ _
          (sym (if-true _ _ _ some_chunk) ∙ e) in
      subst (λ x. AllHeld d x.chunks) (ap (λ q. q.1) (some-injective _ _ e1))
        (subst (Leaves d) looped (emit_loop-Leaves d s.chunks s.last_maxoff (length out) 0 out a))
  | inr no_chunk ↦
      subst (λ x. AllHeld d x.chunks)
        (ap (λ q. q.1) (some-injective _ _ (sym (if-false _ _ _ no_chunk) ∙ e))) a
]

module _ (f : Floats) where
  -- `read` leaves pieces of the stream, each in its place, if there were only such before.
  pub read-Held :
      (d : List ℕ) (c c' : Connection f) (out out' : List ℕ) (r : Result ℕ)
      → read f c out ≡ some (r, c', out')
      → Held f d c
      → Held f d c'
  unfolding read
  read-Held d c c' out out' r e a =
      let ((res, buffer, out1), emitted, e1) = bind-some (emit c.rec_buffer out) _ _ e in
      subst (Held f d) (ap (λ q. q.1) (some-injective _ _ e1))
        (emit-AllHeld d c.rec_buffer buffer out out1 res emitted a)
