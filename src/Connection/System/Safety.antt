-- ===== src/Connection/System/Safety.antt =====
-- What holds in every reachable state of a sender, a receiver and the network between them.
use dmludp.Prelude.{
  ℕ, ◌+◌, ◌≤◌, ◌<◌, ◌≡◌, refl, sym, ap, ap₂, ◌∙◌, subst, List, [], ◌∷◌, length, take, drop, some,
  arith, inl, inr, u64_mod,
}
use dmludp.Prelude.Maps.{lookup}
use dmludp.Error.{ok, err}
use dmludp.Floats.{Floats}
use dmludp.Octets.{Octets, OctetsLaws}
use dmludp.RangeBuf.{RangeBuf}
use dmludp.SendBuf.Window.{view, window}
use dmludp.Connection.Paced.{IsPaced}
use dmludp.Connection.Slices.{AllHeld-lookup, slice-take}
use dmludp.Connection.Stream.{IsGenuine, IsStream}
use dmludp.Connection.Stream.Send.{send_data-IsStream}
use dmludp.Connection.Stream.Round.{send_all-IsStream}
use dmludp.Connection.Stream.Hear.{recv_slice-IsStream}
use dmludp.Connection.Stream.Arrive.{Held, recv_slice-Held}
use dmludp.Connection.Stream.Use.{read-Held}
use dmludp.Connection.Stream.Reply.{send_data-Held}
use dmludp.Connection.System.{
  IsIn, System, IsStart, Step, filled, sent, not_sent, heard, arrived, replied, was_read, Reach,
  start, later,
}

abbrev AllGenuine : List ℕ → List (List ℕ) → Type 0
AllGenuine d [] = Unit
AllGenuine d (p ∷ network) = IsGenuine d p × AllGenuine d network

IsIn-IsGenuine :
    (d packet : List ℕ) (network : List (List ℕ))
    → AllGenuine d network
    → IsIn packet network
    → IsGenuine d packet
IsIn-IsGenuine d packet [] a i = absurd i
IsIn-IsGenuine d packet (p ∷ network) (g, a) (inl e) = subst (IsGenuine d) e g
IsIn-IsGenuine d packet (p ∷ network) (g, a) (inr i) = IsIn-IsGenuine d packet network a i

module _ (f : Floats) (o : Octets) (laws : OctetsLaws o) where
  record IsSafe (d : List ℕ) (s : System f) : Type 0 where
    short : length d < u64_mod
    stream : IsStream f d s.sender
    paced : IsPaced f o s.sender
    genuine : AllGenuine d s.network
    held : Held f d s.receiver

  start-IsSafe : (d : List ℕ) (s : System f) → IsStart f d s → IsSafe d s
  start-IsSafe d s v =
      let empty : window s.sender.send_buffer ≡ [] = ap₂ view v.no_chunks v.no_flags in
      record {
        short = v.short;
        stream = record {
          sender = record {
            valid = record {
              laid = rw (v.no_chunks, v.no_flags) (omega arith);
              off_u64 = omega (arith, v.at_start);
            };
            running = v.running;
            aligned = v.at_start ∙ sym v.no_offset;
            counted = v.no_offset ∙ sym v.none_written;
            within = omega (arith, v.none_written);
            data_u64 = omega (arith, ap length v.stream, v.short);
            blocks = rw empty tt;
          };
          whole = v.stream;
          slices = rw empty tt;
          offsets = rw v.none_sent tt;
          silent = v.owes_nothing;
        };
        paced = record {
          counted = omega (arith, ap length v.none_sent, v.none_named, v.none_counted);
          few = omega (arith, v.none_counted);
        };
        genuine = rw v.no_packets tt;
        held = rw v.none_received tt;
      }

  step-IsSafe : (d : List ℕ) (s t : System f) → Step f o s t → IsSafe d s → IsSafe d t
  step-IsSafe d s _ (filled now r c h e) v =
      let (stream, paced) = send_all-IsStream f d o s.sender c r now h v.stream v.paced e in
      record { short = v.short; stream = stream; paced = paced; genuine = v.genuine; held = v.held }
  step-IsSafe d s _ (sent now n out out' c room e) v =
      let (stream, paced, makes) =
        send_data-IsStream f o laws d s.sender c out out' (ok n) now room v.stream v.paced (λ q. cc)
          e in
      record {
        short = v.short;
        stream = stream;
        paced = paced;
        genuine = (makes n refl, v.genuine);
        held = v.held;
      }
  step-IsSafe d s _ (not_sent now out out' x c room long e) v =
      let (stream, paced, _) =
        send_data-IsStream f o laws d s.sender c out out' (err x) now room v.stream v.paced
          (λ q. long cc) e in
      record { short = v.short; stream = stream; paced = paced; genuine = v.genuine; held = v.held }
  step-IsSafe d s _ (heard now buf r c other e) v =
      let (stream, paced) =
        recv_slice-IsStream f d o s.sender c buf now r other v.stream v.paced e in
      record { short = v.short; stream = stream; paced = paced; genuine = v.genuine; held = v.held }
  step-IsSafe d s _ (arrived now packet r c i e) v = record {
    short = v.short;
    stream = v.stream;
    paced = v.paced;
    genuine = v.genuine;
    held =
        recv_slice-Held f o laws d s.receiver c packet now r v.short
          (IsIn-IsGenuine d packet s.network v.genuine i) e v.held;
  }
  step-IsSafe d s _ (replied now out out' r c e) v = record {
    short = v.short;
    stream = v.stream;
    paced = v.paced;
    genuine = v.genuine;
    held = send_data-Held f o d s.receiver c out out' r now e v.held;
  }
  step-IsSafe d s _ (was_read out out' r c e) v = record {
    short = v.short;
    stream = v.stream;
    paced = v.paced;
    genuine = v.genuine;
    held = read-Held f d s.receiver c out out' r e v.held;
  }

  Reach-IsSafe : (d : List ℕ) (s : System f) → Reach f o d s → IsSafe d s
  Reach-IsSafe d s (start _ v) = start-IsSafe d s v
  Reach-IsSafe d s (later r step) = step-IsSafe d _ s step (Reach-IsSafe d _ r)

  -- Whatever is lost, repeated, delayed, reordered or forged on the way to the sender, in every
  -- reachable state a chunk that the receiver holds is a piece of the stream that the sender was given,
  -- unchanged and at its place, under the offset of its end.
  pub received_was_sent :
      (d : List ℕ) (s : System f) (k : ℕ) (b : RangeBuf)
      → Reach f o d s
      → lookup k s.receiver.rec_buffer.chunks ≡ some b
      → (k ≡ b.off + length b.bytes)
        × (k ≤ length d)
        × (b.bytes ≡ take (length b.bytes) (drop b.off d))
  received_was_sent d s k b r e =
      let (key, piece) =
        AllHeld-lookup d k b s.receiver.rec_buffer.chunks (Reach-IsSafe d s r).held e in
      (key, omega (arith, key, piece.within), slice-take d b.off b.bytes piece)
