-- ===== src/Core/Tcp/Wrap.antt =====
-- Sizes that do not fit an `int`.
use galculus.Common.{
  ℕ, ◌+◌, ◌%◌, ◌^◌, ◌≤◌, ◌≡◌, ◌≢◌, refl, ap, ◌∙◌, arith, true, some, [], ◌∷◌, ◌++◌, length, take,
  drop, take-append-drop, append-nil,
}
use galculus.Core.Wire.{Bytes}
use galculus.Core.Frame.RoundTrip.{header}
use galculus.Core.Transport.{is_empty}
use galculus.Core.Tcp.{
  Winsock, int_bound, resize, written_at, send_loop, send_all, recv_loop, recv_all,
  TcpByteTransport, send_bytes, received_rest, received_header, receive_bytes,
}
use galculus.Core.Tcp.Streams.{IsStream}
use galculus.Core.Tcp.Frames.{IsOpen, header_arrives, read_u32_be-header, not_zero, int_bound_lem}

int_bound_negative : (n : ℕ) → 2 ^ 31 ≤ n % 2 ^ 32 → int_bound n ≡ 0
unfolding int_bound
int_bound_negative n h = ground arith

-- The bound for the bytes behind a header whose size field is `n`.
int_bound_rest : (n : ℕ) → 2 ^ 31 ≤ n + 4 → n + 4 ≤ 2 ^ 32 → int_bound ((n + 4) % 2 ^ 32) ≡ 0
unfolding int_bound
int_bound_rest n h k = ground arith

module _ (w : Winsock) (t : TcpByteTransport w) where
  -- With an open socket, bytes whose number has a remainder of at least 2 ^ 31 modulo 2 ^ 32, and so
  -- is cast to a negative int, are reported as sent and nothing is sent.
  send_bytes_huge :
      (bytes : Bytes)
      → t.socket_handle ≢ 0
      → 2 ^ 31 ≤ length bytes % 2 ^ 32
      → send_bytes w t bytes ≡ (t, true)
  unfolding send_bytes is_empty send_all send_loop
  send_bytes_huge [] v huge = absurd (omega arith)
  send_bytes_huge (b ∷ more) v huge =
      rw (not_zero t.socket_handle v, int_bound_negative (length (b ∷ more)) huge) refl

  module _ (c : IsStream w) where
    -- After a header with a size n, where n + 4 is at least 2 ^ 31 and at most 2 ^ 32,
    -- receive_bytes reads nothing more from an open connection and returns the header, resized.
    pub receive_bytes_wraps :
        (n : ℕ) (rest out : Bytes)
        → IsOpen w c t out (header n ++ rest)
        → 2 ^ 31 ≤ n + 4
        → n + 4 ≤ 2 ^ 32
        → ((receive_bytes w t).1 ≡ some (resize ((8 + (n + 4) % 2 ^ 32) % 2 ^ 32) (header n)))
          × IsOpen w c (receive_bytes w t).0 out rest
    unfolding receive_bytes received_header received_rest recv_all recv_loop written_at
    receive_bytes_wraps n rest out v low high =
        let (s, (e, v')) = header_arrives w c t n rest out v in
        let frame = resize ((8 + (n + 4) % 2 ^ 32) % 2 ^ 32) (header n) in
        rw
          (
            not_zero t.socket_handle v.0,
            int_bound_lem 8 (omega arith),
            e,
            read_u32_be-header n (omega arith),
            int_bound_rest n low high,
          )
          (
            ap some (
                ap (λ (x : Bytes). x ++ drop 8 frame) (append-nil (take 8 frame))
                ∙ take-append-drop 8 frame),
            (v.0, v'),
          )
