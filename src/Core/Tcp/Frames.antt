-- ===== src/Core/Tcp/Frames.antt =====
-- Frames over a connection: what is sent goes out whole, and a frame that arrives is taken whole.
use mathlib.Core.Path.{subst}
use native.Mathlib.Decide.{dec_lt}
use galculus.Common.{
  ℕ, ◌+◌, ◌-◌, ◌%◌, ◌^◌, ◌<◌, ◌≡◌, ◌≢◌, refl, ap, ◌∙◌, arith, true, false, ◌==◌, Option, none, some,
  [], ◌∷◌, ◌++◌, length, length-append, length-take, take, drop, replicate, take-append_length,
  append_assoc, append-nil,
}
use galculus.Common.Slices.{take-long, take-append_right, drop_all, length-replicate}
use galculus.Core.Wire.{Bytes, word_at, write_u32, size_t}
use galculus.Core.Wire
use galculus.Core.Wire.RoundTrip.{read_u32-write_u32, length-write_u32}
use galculus.Core.Frame
use galculus.Core.Frame.{checksum, magic}
use galculus.Core.Frame.RoundTrip.{header, encode-sealed, length-header}
use galculus.Common.{Extends-refl}
use galculus.Core.Transport.{is_empty}
use galculus.Core.Tcp.{
  Winsock, int_bound, resize, written_at, read_u32_be, recv_all, TcpByteTransport, send_bytes,
  received_rest, received_header, receive_bytes,
}
use galculus.Core.Tcp.Streams.{IsStream}
use galculus.Core.Tcp.Loops.{send_all_lem, recv_all_lem, recv_all_short}

pub int_bound_lem : (n : ℕ) → n < 2 ^ 31 → int_bound n ≡ n
unfolding int_bound
int_bound_lem n h = ground arith

-- The size in a header.
pub read_u32_be-header : (n : ℕ) → n < 2 ^ 32 → read_u32_be (drop 4 (header n)) ≡ n
unfolding read_u32_be write_u32 Wire.read_u32
read_u32_be-header n h =
    let read = read_u32-write_u32 (write_u32 [] n) (omega arith) [] n h (Extends-refl _) in
    ground (arith, read)

-- The body of a frame, written behind its header.
written_at-resize :
    (head body : Bytes)
    → length head ≡ 8
    → length body < 2 ^ 31
    → written_at 8 body (resize ((8 + length body) % 2 ^ 32) head) ≡ head ++ body
unfolding written_at resize
written_at-resize head body h small =
    let size : (8 + length body) % 2 ^ 32 ≡ 8 + length body = omega arith in
    let gap : 8 + length body - length head ≡ length body = omega arith in
    let zeros : Bytes = replicate (length body) 0 in
    rw
      (
        size,
        gap,
        take-long (8 + length body) head (omega arith),
        drop_all (8 + length body) (head ++ zeros)
            (omega (arith, length-append head zeros, length-replicate {A = ℕ} (length body) 0)),
        append-nil,
        subst (λ (n : ℕ). take n (head ++ zeros) ≡ head) h (take-append_length head zeros),
      )
      refl

-- A frame is its header and the rest.
abbrev pub behind_header : Bytes → Bytes
behind_header payload = write_u32 payload (checksum payload)

pub encode-header :
    (payload : Bytes)
    → length payload < 2 ^ 32
    → Frame.encode payload ≡ header (length payload) ++ behind_header payload
unfolding write_u32
encode-header payload h = encode-sealed payload h ∙ append_assoc (header (length payload)) payload _

-- An open transport on a socket that has taken `out` and gets `inp`.
abbrev pub IsOpen : (w : Winsock) (c : IsStream w) → TcpByteTransport w → Bytes → Bytes → Type 0
IsOpen w c t out inp = (t.socket_handle ≢ 0) × c.Holds t.sockets t.socket_handle out inp

pub not_zero : (n : ℕ) → n ≢ 0 → (n == 0) ≡ false
not_zero n h = ground arith

module _ (w : Winsock) (c : IsStream w) (t : TcpByteTransport w) where
  -- On an open connection, send_bytes of at least one and fewer than 2 ^ 31 bytes succeeds, sends
  -- exactly them and leaves the connection open.
  pub send_bytes_lem :
      (bytes out inp : Bytes)
      → IsOpen w c t out inp
      → 0 < length bytes
      → length bytes < 2 ^ 31
      → ((send_bytes w t bytes).1 ≡ true) × IsOpen w c (send_bytes w t bytes).0 (out ++ bytes) inp
  unfolding send_bytes is_empty
  send_bytes_lem [] out inp v some_bytes small = elim some_bytes [ ]
  send_bytes_lem (b ∷ more) out inp v some_bytes small =
      let bytes = b ∷ more in
      let (sent, v') = send_all_lem w c t.sockets t.socket_handle bytes out inp v.1 in
      rw (not_zero t.socket_handle v.0, int_bound_lem (length bytes) small) (sent, (v.0, v'))

  -- The two reads.
  received_header_lem :
      (s : w.State) (h : ℕ) (payload rest out : Bytes)
      → c.Holds s h out (behind_header payload ++ rest)
      → length payload + 4 < 2 ^ 31
      → ((received_header w (s, some (header (length payload))) h).1 ≡ some (Frame.encode payload))
        × c.Holds (received_header w (s, some (header (length payload))) h).0 h out rest
  unfolding received_header received_rest
  received_header_lem s h payload rest out v small =
      let body = behind_header payload in
      let n = length payload in
      let size : length body ≡ n + 4 = length-write_u32 payload (checksum payload) in
      let (got, v') = recv_all_lem w c s h body rest out v in
      let whole : recv_all w s h (length body) ≡ ((recv_all w s h (length body)).0, some body) =
        ap (λ (o : Option Bytes). ((recv_all w s h (length body)).0, o)) got in
      let remaining : (n + 4) % 2 ^ 32 ≡ length body = omega arith in
      rw
        (
          read_u32_be-header n (omega arith),
          remaining,
          int_bound_lem (length body) (omega arith),
          whole,
          written_at-resize (header n) body (length-header n) (omega arith),
          encode-header payload (omega arith),
        )
        (refl, v')

  pub header_arrives :
      (n : ℕ) (more out : Bytes)
      → IsOpen w c t out (header n ++ more)
      → (s : w.State) × ((recv_all w t.sockets t.socket_handle 8 ≡ (s, some (header n)))
          × c.Holds s t.socket_handle out more)
  header_arrives n more out v =
      let (got, v') = recv_all_lem w c t.sockets t.socket_handle (header n) more out v.1 in
      subst
        (λ (k : ℕ).
          (s : w.State) × ((recv_all w t.sockets t.socket_handle k ≡ (s, some (header n)))
            × c.Holds s t.socket_handle out more))
        (length-header n)
        (let s = (recv_all w t.sockets t.socket_handle (length (header n))).0 in
          (s, (ap (λ (o : Option Bytes). (s, o)) got, v')))

  -- From an open connection on which a frame arrives first, whose payload and checksum are shorter
  -- than 2 ^ 31, receive_bytes takes that frame, in parts of any size, and leaves what follows it.
  pub receive_bytes-encode :
      (payload rest out : Bytes)
      → IsOpen w c t out (Frame.encode payload ++ rest)
      → length payload + 4 < 2 ^ 31
      → ((receive_bytes w t).1 ≡ some (Frame.encode payload))
        × IsOpen w c (receive_bytes w t).0 out rest
  unfolding receive_bytes
  receive_bytes-encode payload rest out v small =
      let front = header (length payload) in
      let split : Frame.encode payload ++ rest ≡ front ++ (behind_header payload ++ rest) =
        ap (λ (x : Bytes). x ++ rest) (encode-header payload (omega arith))
        ∙ append_assoc front (behind_header payload) rest in
      let (s, (e, v')) =
        header_arrives (length payload) (behind_header payload ++ rest) out
          (subst (λ (x : Bytes). IsOpen w c t out x) split v) in
      let (got, v'') = received_header_lem s t.socket_handle payload rest out v' small in
      rw (not_zero t.socket_handle v.0, int_bound_lem 8 (omega arith), e) (got, (v.0, v''))

  received_header_cut :
      (s : w.State) (h n : ℕ) (payload out : Bytes)
      → c.Holds s h out (take n (behind_header payload))
      → length payload + 4 < 2 ^ 31
      → n < length payload + 4
      → (received_header w (s, some (header (length payload))) h).1 ≡ none
  unfolding received_header received_rest
  received_header_cut s h k payload out v small short =
      let body = behind_header payload in
      let n = length payload in
      let size : length body ≡ n + 4 = length-write_u32 payload (checksum payload) in
      let none_left =
        recv_all_short w c s h (length body) (take k body) out v
          (omega (arith, length-take k body)) in
      let whole : recv_all w s h (length body) ≡ ((recv_all w s h (length body)).0, none) =
        ap (λ (o : Option Bytes). ((recv_all w s h (length body)).0, o)) none_left in
      let remaining : (n + 4) % 2 ^ 32 ≡ length body = omega arith in
      rw
        (
          read_u32_be-header n (omega arith),
          remaining,
          int_bound_lem (length body) (omega arith),
          whole,
        )
        refl

  -- When the peer closes an open connection in the middle of a frame, whose payload and checksum
  -- are shorter than 2 ^ 31, receive_bytes returns nothing.
  pub receive_bytes_cut :
      (payload out : Bytes) (n : ℕ)
      → IsOpen w c t out (take n (Frame.encode payload))
      → length payload + 4 < 2 ^ 31
      → n < length (Frame.encode payload)
      → (receive_bytes w t).1 ≡ none
  unfolding receive_bytes
  receive_bytes_cut payload out n v small short =
      let front = header (length payload) in
      let body = behind_header payload in
      let split = encode-header payload (omega arith) in
      let size : length body ≡ length payload + 4 = length-write_u32 payload (checksum payload) in
      let all : length (Frame.encode payload) ≡ 8 + length body =
        ap length split
        ∙ length-append front body
        ∙ ap (λ (x : ℕ). x + length body) (length-header (length payload)) in
      elim (dec_lt n 8) [
        | yes early ↦
            let lost =
              recv_all_short w c t.sockets t.socket_handle 8 (take n (Frame.encode payload)) out v.1
                (omega (arith, length-take n (Frame.encode payload))) in
            let whole : recv_all w t.sockets t.socket_handle 8
                ≡ ((recv_all w t.sockets t.socket_handle 8).0, none) =
              ap (λ (o : Option Bytes). ((recv_all w t.sockets t.socket_handle 8).0, o)) lost in
            rw (not_zero t.socket_handle v.0, int_bound_lem 8 (omega arith), whole, received_header)
              refl
        | no late ↦
            let at : n ≡ length front + (n - 8) = omega (arith, length-header (length payload)) in
            let front_part : take n (Frame.encode payload) ≡ front ++ take (n - 8) body =
              ap (take n) split
              ∙ ap (λ (k : ℕ). take k (front ++ body)) at
              ∙ take-append_right front body (n - 8) in
            let (s, (e, v')) =
              header_arrives (length payload) (take (n - 8) body) out
                (subst (λ (x : Bytes). IsOpen w c t out x) front_part v) in
            rw (not_zero t.socket_handle v.0, int_bound_lem 8 (omega arith), e)
              (received_header_cut s t.socket_handle (n - 8) payload out v' small (omega arith))
      ]
