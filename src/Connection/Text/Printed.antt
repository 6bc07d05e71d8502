-- ===== src/Connection/Text/Printed.antt =====
-- A list of words as a text, and how `data_send` and `process_string` find the words again.
use dmludp.Prelude.{
  ℕ, ◌≡◌, refl, ap, ◌∙◌, ◌==◌, true, false, some, List, [], ◌∷◌, ◌++◌, get_elem?, arith,
}
use dmludp.SendBuf.{is_nil}
use dmludp.Connection.Text.{remove, split, extend, retain_words}
use dmludp.Connection.Text.Blocks.{parts_of}

-- A text without the character `c`
abbrev pub Without : ℕ → List ℕ → Type 0
Without c [] = Unit
Without c (x ∷ xs) = ((x == c) ≡ false) × Without c xs

Without-append : (c : ℕ) (xs ys : List ℕ) → Without c xs → Without c ys → Without c (xs ++ ys)
Without-append c [] ys a b = b
Without-append c (x ∷ xs) ys (h, a) b = (h, Without-append c xs ys a b)

remove-Without : (c : ℕ) (xs : List ℕ) → Without c xs → remove c xs ≡ xs
unfolding remove
remove-Without c [] a = refl
remove-Without c (x ∷ xs) (h, a) = rw h (ap (λ ys. x ∷ ys) (remove-Without c xs a))

split-Without : (c : ℕ) (xs : List ℕ) → Without c xs → split c xs ≡ xs ∷ []
unfolding split
split-Without c [] a = refl
split-Without c (x ∷ xs) (h, a) = rw h (ap (extend x) (split-Without c xs a))

split-append : (c : ℕ) (xs ys : List ℕ) → Without c xs → split c (xs ++ (c ∷ ys)) ≡ xs ∷ split c ys
unfolding split
split-append c [] ys a = rw (same c) refl
  where
    same : (n : ℕ) → (n == n) ≡ true
    same n = ground arith
split-append c (x ∷ xs) ys (h, a) = rw h (ap (extend x) (split-append c xs ys a))

-- A word has no character that `data_send` looks for, and at least one other.
pub record IsWord (w : List ℕ) : Type 0 where
  pub not_empty : is_nil w ≡ false
  pub newline : Without b'\n' w
  pub quote : Without b'"' w
  pub return : Without b'\r' w
  pub greater : Without b'>' w
  pub opening : Without b'[' w
  pub closing : Without b']' w
  pub space : Without b' ' w

abbrev pub AllWords : List (List ℕ) → Type 0
AllWords [] = Unit
AllWords (w ∷ ws) = IsWord w × AllWords ws

-- the words with a space behind each
abbrev pub spaced : List (List ℕ) → List ℕ
spaced [] = []
spaced (w ∷ ws) = w ++ (b' ' ∷ spaced ws)

-- the words in brackets
abbrev pub printed : List (List ℕ) → List ℕ
printed ws = b'[' ∷ (spaced ws ++ (b']' ∷ []))

spaced-Without :
    (c : ℕ) (ws : List (List ℕ))
    → (b' ' == c) ≡ false
    → ((w : List ℕ) → IsWord w → Without c w)
    → AllWords ws
    → Without c (spaced ws)
spaced-Without c [] s h a = tt
spaced-Without c (w ∷ ws) s h (v, a) =
    Without-append c w (b' ' ∷ spaced ws) (h w v) (s, spaced-Without c ws s h a)

printed-Without :
    (c : ℕ) (ws : List (List ℕ))
    → (b'[' == c) ≡ false
    → (b']' == c) ≡ false
    → (b' ' == c) ≡ false
    → ((w : List ℕ) → IsWord w → Without c w)
    → AllWords ws
    → Without c (printed ws)
printed-Without c ws p q s h a =
    (p, Without-append c (spaced ws) (b']' ∷ []) (spaced-Without c ws s h a) (q, tt))

-- The text is one part.
pub parts_of-printed : (ws : List (List ℕ)) → AllWords ws → parts_of (printed ws) ≡ printed ws ∷ []
parts_of-printed ws a =
    ap (λ xs. split b'>' (remove b'\r' (remove b'"' xs)))
      (remove-Without b'\n' (printed ws)
        (printed-Without b'\n' ws refl refl refl (λ w v. v.newline) a))
    ∙ ap (λ xs. split b'>' (remove b'\r' xs))
        (remove-Without b'"' (printed ws)
          (printed-Without b'"' ws refl refl refl (λ w v. v.quote) a))
    ∙ ap (split b'>') (
        remove-Without b'\r' (printed ws)
          (printed-Without b'\r' ws refl refl refl (λ w v. v.return) a))
    ∙ split-Without b'>' (printed ws) (printed-Without b'>' ws refl refl refl (λ w v. v.greater) a)

-- The text behind the opening bracket, and before the closing one.
pub opened-printed :
    (ws : List (List ℕ))
    → AllWords ws
    → get_elem? (split b'[' (printed ws)) 1 ≡ some (spaced ws ++ (b']' ∷ []))
opened-printed ws a =
    ap (λ ps. get_elem? ps 1) (split-append b'[' [] (spaced ws ++ (b']' ∷ [])) tt)
    ∙ ap (λ ps. get_elem? ps 0)
        (split-Without b'[' (spaced ws ++ (b']' ∷ [])) (
          Without-append b'[' (spaced ws) (b']' ∷ [])
            (spaced-Without b'[' ws refl (λ w v. v.opening) a) (refl, tt)))

pub closed-printed :
    (ws : List (List ℕ))
    → AllWords ws
    → get_elem? (split b']' (spaced ws ++ (b']' ∷ []))) 0 ≡ some (spaced ws)
closed-printed ws a =
    ap (λ ps. get_elem? ps 0)
      (split-append b']' (spaced ws) [] (spaced-Without b']' ws refl (λ w v. v.closing) a))

-- The words are found again.
pub words-printed : (ws : List (List ℕ)) → AllWords ws → retain_words (split b' ' (spaced ws)) ≡ ws
unfolding retain_words split
words-printed [] a = refl
words-printed (w ∷ ws) (v, a) =
    ap retain_words (split-append b' ' w (spaced ws) v.space)
    ∙ rw v.not_empty (ap (λ vs. w ∷ vs) (words-printed ws a))
