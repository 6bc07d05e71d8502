-- ===== src/Connection/Text/Tests.antt =====
-- The theorems on `data_send` at a text with 257 numbers.
use dmludp.Prelude.{
  ℕ, zero, suc, ◌≡◌, ◌≤◌, ◌<◌, ◌/◌, ◌==◌, leb, Bool, refl, List, [], ◌∷◌, some, none, length,
  get_elem?, arith, be_digits,
}
use dmludp.Floats.Example.{number, hundredths, hundredths-FloatsLaws, rank-hundredths}
use dmludp.Octets.Example.{sides}
use dmludp.Connection.{Connection, priority_calculation}
use dmludp.Connection.Send.{send_chunk}
use dmludp.Connection.Example.{sender}
use dmludp.Connection.Text.{
  data_send, part_loop, process_string, set_split_points, remove, split, retain_words, item_loop,
  end_block, sort, insert_sorted, place,
}
use dmludp.Connection.Text.Blocks.{parts_of, number_counts}
use dmludp.Connection.Text.Order.{count}
use dmludp.Connection.Text.Classes.{block_priorities, classes_of_data_send}
use dmludp.Connection.Text.Sorted.{AllNumbers}
use dmludp.Connection.Text.Printed.{AllWords, printed}
use dmludp.Connection.Text.Stored.{Parses, bytes_of, data_send_stores}
use dmludp.Connection.Text.Tail.{tail_has_no_priority}

abbrev digits : ℕ → List ℕ
digits zero = b']' ∷ []
digits (suc n) = b'1' ∷ b' ' ∷ digits n

abbrev text : List ℕ
text = b'[' ∷ digits 257

-- the bytes of `n` times the number 1, which is 100 hundredths
abbrev ones : ℕ → List ℕ
ones zero = []
ones (suc n) = 0 ∷ 0 ∷ 0 ∷ 100 ∷ ones n

-- the first 255 numbers have the norm 255
abbrev filled : Connection hundredths
filled = record sender {
  send_data = ones 257;
  norm2_vec = 25500 ∷ [];
  low_split_point = 25500;
  high_split_point = 25500;
}

data_send_run : data_send hundredths sender text ≡ some filled
unfolding data_send part_loop process_string set_split_points remove split retain_words item_loop
    end_block sort insert_sorted place number be_digits
data_send_run = refl

text_count : number_counts (parts_of text) ≡ 257 ∷ []
unfolding remove split retain_words
text_count = refl

classes_of_data_send_example :
    ((off : ℕ)
      → priority_calculation hundredths filled off
        ≡ get_elem? (block_priorities hundredths filled) (off / 1024))
    × (count (λ p. p == 1) (block_priorities hundredths filled) ≤ 0)
    × (count (λ p. leb p 2) (block_priorities hundredths filled) ≤ 0)
classes_of_data_send_example =
    classes_of_data_send hundredths hundredths-FloatsLaws sender filled text data_send_run

tail_has_no_priority_example :
    (1024 < length filled.send_data)
    × ((off : ℕ) → off < 1024 → (p : ℕ) × (priority_calculation hundredths filled off ≡ some p))
    × ((len off now : ℕ) (stop : Bool) (out : List ℕ)
        → 1024 ≤ off
        → (priority_calculation hundredths filled off ≡ none)
          × (send_chunk hundredths sides filled len off stop out now ≡ none))
tail_has_no_priority_example =
    tail_has_no_priority hundredths hundredths-FloatsLaws sides sender filled text 257 data_send_run
      text_count (omega arith) (omega arith)

abbrev words : ℕ → List (List ℕ)
words zero = []
words (suc n) = (b'1' ∷ []) ∷ words n

abbrev hundreds : ℕ → List ℕ
hundreds zero = []
hundreds (suc n) = 100 ∷ hundreds n

words-AllWords : (n : ℕ) → AllWords (words n)
words-AllWords zero = tt
words-AllWords (suc n) = (
  record {
    not_empty = refl;
    newline = (refl, tt);
    quote = (refl, tt);
    return = (refl, tt);
    greater = (refl, tt);
    opening = (refl, tt);
    closing = (refl, tt);
    space = (refl, tt);
  },
  words-AllWords n,
)

words-Parses : (n : ℕ) → Parses hundredths (words n) (hundreds n)
unfolding number
words-Parses zero = tt
words-Parses (suc n) = (refl, words-Parses n)

all_numbers : (xs : List ℕ) → AllNumbers hundredths hundredths-FloatsLaws xs
all_numbers [] = tt
all_numbers (x ∷ xs) = (rank-hundredths x, all_numbers xs)

data_send_stores_example :
    (c' : Connection hundredths) × (data_send hundredths sender (printed (words 257)) ≡ some c')
    × (c'.send_data ≡ bytes_of hundredths (hundreds 257))
    × (c'.norm2_vec ≡ 25500 ∷ [])
data_send_stores_example =
    data_send_stores hundredths hundredths-FloatsLaws sender (words 257) (hundreds 257)
      (words-AllWords 257) (words-Parses 257) (omega arith) (omega arith) (all_numbers (25500 ∷ []))
