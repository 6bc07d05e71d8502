-- ===== src/Connection/Text/Tail.antt =====
-- Which offsets of the stored bytes have a priority, and what sending one without it does.
use dmludp.Prelude.{
  ℕ, ◌*◌, ◌/◌, ◌%◌, ◌≤◌, ◌<◌, ◌≡◌, ◌≢◌, ap, ◌∙◌, Bool, if◌then◌else◌, some, none, List, [], ◌∷◌,
  length, get_elem?-none, get_elem?-some, arith,
}
use dmludp.Floats.{Floats, FloatsLaws}
use dmludp.Octets.{Octets}
use dmludp.Connection.Send.{count_chunk, send_chunk}
use dmludp.Connection.{Connection, priority_calculation}
use dmludp.Connection.Text.{data_send}
use dmludp.Connection.Text.Blocks.{number_counts, norm_count, sum, parts_of, data_send-counts}

module _ (f : Floats) where
  priority-some :
      (c : Connection f) (off : ℕ)
      → off / 1024 < length c.norm2_vec
      → (p : ℕ) × (priority_calculation f c off ≡ some p)
  unfolding priority_calculation
  priority-some c off h =
      let (x, e) = get_elem?-some c.norm2_vec (off / 1024) h in
      let p : ℕ =
        if f.lt32 x c.low_split_point then 1 else if f.lt32 x c.high_split_point then 2 else 3 in
      (p, rw e)

  priority-none :
      (c : Connection f) (off : ℕ)
      → length c.norm2_vec ≤ off / 1024
      → priority_calculation f c off ≡ none
  unfolding priority_calculation
  priority-none c off h = rw (get_elem?-none c.norm2_vec (off / 1024) h)

  count_chunk-none :
      (c : Connection f) (off : ℕ)
      → priority_calculation f c off ≡ none
      → count_chunk f c off ≡ none
  unfolding count_chunk
  count_chunk-none c off e = ground arith

  send_chunk-none :
      (o : Octets) (c : Connection f) (len off : ℕ) (stop : Bool) (out : List ℕ) (now : ℕ)
      → priority_calculation f c off ≡ none
      → send_chunk f o c len off stop out now ≡ none
  unfolding send_chunk
  send_chunk-none o c len off stop out now e = rw (count_chunk-none c off e)

module _ (f : Floats) (laws : FloatsLaws f) where
  -- A text with one list of n numbers, n not 0 or 255 modulo 256. Then the bytes that `data_send`
  -- stores reach into a block of 1024 for which it keeps no norm: the offsets before that block have
  -- a priority, and those in it have none, so that sending a packet from there panics.
  pub tail_has_no_priority :
      (o : Octets) (c c' : Connection f) (text : List ℕ) (n : ℕ)
      → data_send f c text ≡ some c'
      → number_counts (parts_of text) ≡ n ∷ []
      → n % 256 ≢ 0
      → n % 256 ≢ 255
      → (1024 * (n / 256) < length c'.send_data)
        × ((off : ℕ) → off < 1024 * (n / 256) → (p : ℕ) × (priority_calculation f c' off ≡ some p))
        × ((len off now : ℕ) (stop : Bool) (out : List ℕ)
            → 1024 * (n / 256) ≤ off
            → (priority_calculation f c' off ≡ none)
              × (send_chunk f o c' len off stop out now ≡ none))
  tail_has_no_priority o c c' text n e one not_0 not_255 =
      let (b, m) = data_send-counts f laws c c' text e in
      let bytes : length c'.send_data ≡ 4 * n = b ∙ ap (λ ns. 4 * sum ns) one ∙ omega arith in
      let norms : length c'.norm2_vec ≡ n / 256 =
        m ∙ ap norm_count one ∙ omega (arith, not_0, not_255) in
      (
        omega (arith, bytes, not_0),
        λ off h. priority-some f c' off (omega (arith, norms)),
        λ len off now stop out h.
            let missing = priority-none f c' off (omega (arith, norms)) in
            (missing, send_chunk-none f o c' len off stop out now missing),
      )
