-- ===== src/SendBuf/Cut.antt =====
-- `SendBuf::write` as a drop followed by pushes of the pieces into which it cuts the data.
use dmludp.Prelude.{
  ℕ, ◌+◌, ◌-◌, ◌≤◌, ◌<◌, ◌≡◌, refl, ap, sym, ◌∙◌, true, false, if◌then◌else◌, ltb, leb, min, List,
  [], ◌∷◌, length, take, arith, u64_mod, some, none, Option, length-take, take_all, Bool-cases,
  if-true, if-false, ◌>>=◌, inl, inr, ltb→lt, leb→le,
}
use dmludp.Error.{Result, ok}
use dmludp.SendBuf.{SendBuf, is_nil, total, write_rest, cap, write_capped, write}
use dmludp.SendBuf.Window.{IsValid}
use dmludp.SendBuf.Ack.{dropped, recv_and_drop_refines}
use dmludp.SendBuf.Push.{push_all, HasRoom}
use dmludp.SendBuf.Pieces.{pieces, write_data-push_all}

truncated :
    {A : Type 0} (c : ℕ) (d : List A)
    → (if ltb c (length d) then take c d else d) ≡ take (min (length d) c) d
truncated c d = elim (Bool-cases (ltb c (length d))) [
  | inl cut ↦ let e : min (length d) c ≡ c = omega (arith, ltb→lt _ _ cut) in rw (cut, e)
  | inr whole ↦ rw whole (sym (take_all (min (length d) c) d (ground arith)))
]

is_nil_of_pos : (d : List ℕ) → 0 < length d → is_nil d ≡ false
is_nil_of_pos [] h = absurd (omega arith)
is_nil_of_pos (x ∷ d) h = refl

pos_of_not_nil : (d : List ℕ) → is_nil d ≡ false → 0 < length d
pos_of_not_nil [] e = cc
pos_of_not_nil (x ∷ d) e = omega arith

module _ (t : SendBuf) (running : t.error ≡ none) (exact : t.used_length ≡ total t.chunks) where
  cap_lem : total t.chunks < t.max_data → cap t ≡ some (ok (t.max_data - total t.chunks), t)
  unfolding cap
  cap_lem h = ground arith

  -- the end of `write`, on data that is not empty and fits
  write_cut :
      (d : List ℕ) (off_len : ℕ)
      → IsValid t
      → 0 < length d
      → off_len ≤ 1024
      → length d < u64_mod
      → HasRoom t (length d)
      → write_rest t d off_len ≡ some (ok (length d), push_all t (pieces d off_len))
  unfolding write_rest
  write_cut d off_len v p small d64 room =
      if-false (is_nil d) _ _ (is_nil_of_pos d p)
      ∙ ap (λ r. r >>= λ x. some (ok x.0, x.1))
          (write_data-push_all t d off_len v room (is_nil_of_pos d p) small d64)

  write_capped_lem :
      (d : List ℕ) (off_len : ℕ)
      → total t.chunks < t.max_data
      → IsValid t
      → 0 < length d
      → off_len ≤ 1024
      → length d < u64_mod
      → HasRoom t (min (length d) (t.max_data - total t.chunks))
      → let n = min (length d) (t.max_data - total t.chunks) in
        write_capped t d off_len ≡ some (ok n, push_all t (pieces (take n d) off_len))
  unfolding write_capped
  write_capped_lem d off_len h v p small d64 room =
      rw (cap_lem h, truncated)
        (write_cut (take n d) off_len v (omega (arith, cut)) small (omega (arith, cut))
            (rw cut room)
          ∙ ap (λ k. some (ok k, push_all t (pieces (take n d) off_len))) cut)
    where
      n : ℕ
      n = min (length d) (t.max_data - total t.chunks)

      cut : length (take n d) ≡ n
      cut = omega (arith, length-take n d)

-- the state in which `write` has dropped what is acknowledged and begun the new window
abbrev pub begun : SendBuf → ℕ → SendBuf
begun s window_size = record (dropped s) {
  max_data = window_size;
  removed = 0;
  sent = 0;
  len = total (dropped s).chunks;
  used_length = total (dropped s).chunks;
}

module _ (s : SendBuf) (d : List ℕ) (window_size off_len max_ack : ℕ) (v : IsValid s) where
  write-begun : write s d window_size off_len max_ack ≡ (
      if leb window_size (total (dropped s).chunks)
      then some (ok 0, begun s window_size)
      else if is_nil d
      then some (ok 0, begun s window_size)
      else write_capped (begun s window_size) d off_len)
  unfolding write
  write-begun = rw (recv_and_drop_refines max_ack v).0

  pub begun-IsValid : IsValid (begun s window_size)
  begun-IsValid =
      let kept = (recv_and_drop_refines max_ack v).1 in
      record { laid = kept.laid; off_u64 = kept.off_u64 }

  abbrev pub written : ℕ
  written = min (length d) (window_size - total (dropped s).chunks)

  pub write-push_all :
      s.error ≡ none
      → off_len ≤ 1024
      → window_size < u64_mod
      → length d < u64_mod
      → s.off + length d < u64_mod
      → write s d window_size off_len max_ack
        ≡ some (ok written, push_all (begun s window_size) (pieces (take written d) off_len))
  write-push_all running small w64 d64 o64 =
      write-begun ∙ elim (Bool-cases (leb window_size (total (dropped s).chunks))) [
        | inl full ↦ if-true _ _ _ full ∙ nothing (omega (arith, leb→le _ _ full))
        | inr room ↦ if-false _ _ _ room ∙ elim (Bool-cases (is_nil d)) [
          | inl no_data ↦ if-true _ _ _ no_data ∙ nothing (no_bytes d no_data)
          | inr some_data ↦
              if-false _ _ _ some_data
              ∙ write_capped_lem (begun s window_size) running refl d off_len (ground arith)
                  begun-IsValid (pos_of_not_nil d some_data) small d64 (ground arith)
        ]
      ]
    where
      nothing :
          written ≡ 0
          → ◌≡◌ {A = Option (Result ℕ × SendBuf)}
              (some (ok 0, begun s window_size))
              (some (ok written, push_all (begun s window_size) (pieces (take written d) off_len)))
      nothing e = rw e

      no_bytes :
          (d : List ℕ)
          → is_nil d ≡ true
          → min (length d) (window_size - total (dropped s).chunks) ≡ 0
      no_bytes [] e = omega arith
      no_bytes (x ∷ d) e = cc
