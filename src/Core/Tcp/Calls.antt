-- ===== src/Core/Tcp/Calls.antt =====
-- The calls of an open transport leave its handle and the table of sockets as they were.
use galculus.Common.{
  ℕ, zero, suc, ◌+◌, ◌-◌, ◌≡◌, refl, ap, ◌∙◌, Bool, ◌||◌, ◌==◌, ltb, Option, none, some, [], ◌∷◌,
  ◌++◌, length, take, drop, if_elim,
}
use galculus.Core.Wire.{Bytes}
use galculus.Core.Message.{Message}
use galculus.Core.Transport.{framed_send, framed_receive, is_empty}
use galculus.Core.Transport.Framed.{to_frame, framed_send_state, framed_receive_state}
use galculus.Core.Tcp.{
  Winsock, TcpByteTransport, tcp_byte_transport, unless_failed, send_loop, send_all, unless_closed,
  recv_loop, recv_all, send_bytes, received_rest, received_header, receive_bytes,
}
use galculus.Core.Tcp.Handles.{IsTable}

module _ (w : Winsock) (o : IsTable w) where
  unless_failed-in_use :
      (s : w.State) (sent : Option ℕ) (next : w.State → ℕ → w.State × Bool)
      → ((n : ℕ) → o.in_use (next s n).0 ≡ o.in_use s)
      → o.in_use (unless_failed w s sent next).0 ≡ o.in_use s
  unless_failed-in_use s none next h = refl
  unless_failed-in_use s (some zero) next h = refl
  unless_failed-in_use s (some (suc n)) next h = h (suc n)

  send_loop-in_use :
      (rounds : ℕ) (s : w.State) (socket : ℕ) (bytes : Bytes) (size total : ℕ)
      → o.in_use (send_loop w rounds s socket bytes size total).0 ≡ o.in_use s
  unfolding send_loop
  send_loop-in_use zero s socket bytes size total = refl
  send_loop-in_use (suc rounds) s socket bytes size total =
      if_elim (λ (p : w.State × Bool). o.in_use p.0 ≡ o.in_use s) (ltb total size)
        (λ more.
          let offered = take (size - total) (drop total bytes) in
          let called = w.send s socket offered in
          unless_failed-in_use called.0 called.1
            (λ s' n. send_loop w rounds s' socket bytes size (total + n))
            (λ n. send_loop-in_use rounds called.0 socket bytes size (total + n))
          ∙ o.send_same s socket offered)
        (λ done. refl)

  unless_closed-in_use :
      (s : w.State) (received : Option Bytes) (next : w.State → Bytes → w.State × Option Bytes)
      → ((more : Bytes) → o.in_use (next s more).0 ≡ o.in_use s)
      → o.in_use (unless_closed w s received next).0 ≡ o.in_use s
  unless_closed-in_use s none next h = refl
  unless_closed-in_use s (some []) next h = refl
  unless_closed-in_use s (some (b ∷ more)) next h = h (b ∷ more)

  recv_loop-in_use :
      (rounds : ℕ) (s : w.State) (socket size : ℕ) (got : Bytes)
      → o.in_use (recv_loop w rounds s socket size got).0 ≡ o.in_use s
  unfolding recv_loop
  recv_loop-in_use zero s socket size got = refl
  recv_loop-in_use (suc rounds) s socket size got =
      if_elim (λ (p : w.State × Option Bytes). o.in_use p.0 ≡ o.in_use s) (ltb (length got) size)
        (λ more.
          let called = w.recv s socket (size - length got) in
          unless_closed-in_use called.0 called.1
            (λ s' bytes. recv_loop w rounds s' socket size (got ++ bytes))
            (λ bytes. recv_loop-in_use rounds called.0 socket size (got ++ bytes))
          ∙ o.recv_same s socket (size - length got))
        (λ done. refl)

  received_rest_state :
      (p : w.State × Option Bytes) (frame : Bytes) → (received_rest w p frame).0 ≡ p.0
  unfolding received_rest
  received_rest_state (s, none) frame = refl
  received_rest_state (s, some body) frame = refl

  received_header-in_use :
      (p : w.State × Option Bytes) (socket : ℕ)
      → o.in_use (received_header w p socket).0 ≡ o.in_use p.0
  unfolding received_header recv_all
  received_header-in_use (s, none) socket = refl
  received_header-in_use (s, some header) socket =
      ap o.in_use (received_rest_state _ _) ∙ recv_loop-in_use _ s socket _ []

  -- Nothing of a transport but the state of its connection has changed.
  pub record Stays (t t' : TcpByteTransport w) : Type 0 where
    pub same_handle : t'.socket_handle ≡ t.socket_handle
    pub same_table : o.in_use t'.sockets ≡ o.in_use t.sockets

  send_bytes-Stays : (t : TcpByteTransport w) (bytes : Bytes) → Stays t (send_bytes w t bytes).0
  unfolding send_bytes send_all
  send_bytes-Stays t bytes =
      if_elim (λ (p : TcpByteTransport w × Bool). Stays t p.0)
        ((t.socket_handle == 0) || is_empty bytes)
        (λ e. record { same_handle = refl; same_table = refl })
        (λ e. record {
          same_handle = refl;
          same_table = send_loop-in_use _ t.sockets t.socket_handle bytes _ 0;
        })

  receive_bytes-Stays : (t : TcpByteTransport w) → Stays t (receive_bytes w t).0
  unfolding receive_bytes recv_all
  receive_bytes-Stays t =
      if_elim (λ (p : TcpByteTransport w × Option Bytes). Stays t p.0) (t.socket_handle == 0)
        (λ e. record { same_handle = refl; same_table = refl })
        (λ e. record {
          same_handle = refl;
          same_table =
              received_header-in_use _ t.socket_handle
              ∙ recv_loop-in_use _ t.sockets t.socket_handle _ [];
        })

  pub framed_send-Stays :
      (t : TcpByteTransport w) (m : Message) → Stays t (framed_send (tcp_byte_transport w) t m).0
  framed_send-Stays t m =
      rw (framed_send_state (tcp_byte_transport w) t m) (send_bytes-Stays t (to_frame m))

  pub framed_receive-Stays :
      (t : TcpByteTransport w) → Stays t (framed_receive (tcp_byte_transport w) t).0
  framed_receive-Stays t =
      rw (framed_receive_state (tcp_byte_transport w) t) (receive_bytes-Stays t)
