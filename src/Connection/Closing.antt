-- ===== src/Connection/Closing.antt =====
-- The packets that the entries of an acknowledgement close, and the entries as they stand in a packet.
use dmludp.Prelude.{
  ℕ, ◌≤◌, ◌≡◌, refl, sym, ap, ◌∙◌, Bool, true, false, ◌==◌, ◌&&◌, ◌||◌, if◌then◌else◌, List, [],
  ◌∷◌, ◌++◌, drop, drop-drop, take, length-append, drop-append_of_length, take-append_of_length,
  length, some, none, arith, slice, IsU64, to_be_bytes, from_be_bytes, from_be_bytes-to_be_bytes,
  length-be_digits, Bool-cases, inl, inr,
}
use dmludp.Prelude.Maps.{lookup}
use dmludp.SendBuf.{SendBuf, ack_and_drop}
use dmludp.SendBuf.Window.{IsValid, Entry, window, ack}
use dmludp.SendBuf.Ack.{ack_and_drop_refines}

abbrev pub close_entry : Bool → Entry → Entry
close_entry b e = if b then record e { pending = false } else e

-- The packets whose offset passes the test cease to wait.
abbrev pub close : (ℕ → Bool) → List Entry → List Entry
close p [] = []
close p (e ∷ es) = close_entry (p e.offset) e ∷ close p es

-- a packet that may not be sent again
abbrev pub is_spent : List (ℕ × ℕ) → ℕ → Bool
is_spent sent_dic k = elim (lookup k sent_dic) [ none ↦ false | some n ↦ n == 0 ]

-- An entry names the packet, and says that it has arrived, or the packet may not be sent again.
abbrev pub closes : List (ℕ × ℕ) → List (ℕ × ℕ) → ℕ → Bool
closes sent_dic [] k = false
closes sent_dic ((j, v) ∷ m) k = (k == j && (is_spent sent_dic j || v == 0)) || closes sent_dic m k

pub close_never : (es : List Entry) → close (λ _. false) es ≡ es
close_never [] = refl
close_never (e ∷ es) = ap (λ xs. e ∷ xs) (close_never es)

close_one : (k : ℕ) (es : List Entry) → ack k es ≡ close (λ x. x == k) es
close_one k [] = refl
close_one k (e ∷ es) = ap (λ xs. close_entry (e.offset == k) e ∷ xs) (close_one k es)

close_twice : (p q : ℕ → Bool) (es : List Entry) → close q (close p es) ≡ close (λ x. p x || q x) es
close_twice p q [] = refl
close_twice p q (e ∷ es) = elim (Bool-cases (p e.offset)) [
  | inl a ↦ elim (Bool-cases (q e.offset)) [
    | inl b ↦ rw (a, b) (ap (λ xs. record e { pending = false } ∷ xs) (close_twice p q es))
    | inr b ↦ rw (a, b) (ap (λ xs. record e { pending = false } ∷ xs) (close_twice p q es))
  ]
  | inr a ↦ rw a (ap (λ xs. close_entry (q e.offset) e ∷ xs) (close_twice p q es))
]

pub close_ext : (p q : ℕ → Bool) (es : List Entry) → ((x : ℕ) → p x ≡ q x) → close p es ≡ close q es
close_ext p q [] h = refl
close_ext p q (e ∷ es) h =
    rw (h e.offset) (ap (λ xs. close_entry (q e.offset) e ∷ xs) (close_ext p q es h))

-- A packet is closed under a test.
abbrev when : Bool → ℕ → ℕ → Bool
when b k x = x == k && b

-- The buffer `s'` is valid, and its window is that of `s` with some packets closed.
abbrev pub Closed : (ℕ → Bool) → SendBuf → SendBuf → Type 0
Closed p s s' = IsValid s' × (window s' ≡ close p (window s))

pub Closed-trans :
    (p q : ℕ → Bool) (s t u : SendBuf) → Closed p s t → Closed q t u → Closed (λ x. p x || q x) s u
Closed-trans p q s t u (_, w) (v, w') = (v, w' ∙ ap (close q) w ∙ close_twice p q (window s))

pub Closed-if :
    (b : Bool) (s : SendBuf) (k : ℕ)
    → IsValid s
    → Closed (when b k) s (if b then ack_and_drop s k else s)
Closed-if true s k v =
    let (v', w) = ack_and_drop_refines k v in
    (v', w ∙ close_one k (window s) ∙ close_ext _ _ (window s) (λ x. ground arith))
Closed-if false s k v = (
  v,
  sym (
      close_ext (when false k) (λ _. false) (window s) (λ x. ground arith)
      ∙ close_never (window s)),
)

abbrev pub shut : Bool → ℕ → SendBuf → SendBuf
shut b k s = if b then ack_and_drop s k else s

-- the entries as they stand in the packet
abbrev pub pair_words : List (ℕ × ℕ) → List ℕ
pair_words [] = []
pair_words ((k, v) ∷ m) = to_be_bytes k ++ (to_be_bytes v ++ pair_words m)

abbrev pub AllPairs : List (ℕ × ℕ) → Type 0
AllPairs [] = Unit
AllPairs ((k, v) ∷ m) = IsU64 k × IsU64 v × AllPairs m

pub slice_8_16 : (xs : List ℕ) → 16 ≤ length xs → slice xs 8 16 ≡ some (take 8 (drop 8 xs))
slice_8_16 xs h = ground (arith, h)

pub words_long : (k v : ℕ) (m : List (ℕ × ℕ)) → 16 ≤ length (pair_words ((k, v) ∷ m))
words_long k v m = omega (
  arith,
  length-append (to_be_bytes k) (to_be_bytes v ++ pair_words m),
  length-append (to_be_bytes v) (pair_words m),
  length-be_digits 8 k,
  length-be_digits 8 v,
)

drop_word : (k : ℕ) (rest : List ℕ) → drop 8 (to_be_bytes k ++ rest) ≡ rest
drop_word k rest = drop-append_of_length 8 (to_be_bytes k) rest (length-be_digits 8 k)

read_word : (k : ℕ) (rest : List ℕ) → IsU64 k → from_be_bytes (take 8 (to_be_bytes k ++ rest)) ≡ k
read_word k rest u =
    ap from_be_bytes (take-append_of_length 8 (to_be_bytes k) rest (length-be_digits 8 k))
    ∙ from_be_bytes-to_be_bytes k u

pub drop_pair : (k v : ℕ) (m : List (ℕ × ℕ)) → drop 16 (pair_words ((k, v) ∷ m)) ≡ pair_words m
drop_pair k v m =
    sym (drop-drop 8 8 (pair_words ((k, v) ∷ m)))
    ∙ ap (drop 8) (drop_word k (to_be_bytes v ++ pair_words m))
    ∙ drop_word v (pair_words m)

pub first_words :
    {B : Type 0} (g : ℕ → ℕ → B) (k v : ℕ) (m : List (ℕ × ℕ))
    → IsU64 k
    → IsU64 v
    → g
        (from_be_bytes (take 8 (pair_words ((k, v) ∷ m))))
        (from_be_bytes (take 8 (drop 8 (pair_words ((k, v) ∷ m)))))
      ≡ g k v
first_words g k v m uk uv =
    let second =
      ap (λ xs. from_be_bytes (take 8 xs)) (drop_word k (to_be_bytes v ++ pair_words m))
      ∙ read_word v (pair_words m) uv in
    ap (g _) second ∙ ap (λ j. g j v) (read_word k (to_be_bytes v ++ pair_words m) uk)
