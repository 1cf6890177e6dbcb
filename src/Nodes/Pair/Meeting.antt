-- ===== src/Nodes/Pair/Meeting.antt =====
-- The two nodes of examples/tcp_nodes/, each run to its end.
use mathlib.Core.Path.{subst}
use galculus.Common.{append-nil, ◌^◌, ◌<◌, ℕ, ◌≡◌, refl, sym, arith, some, [], ◌++◌, length, codes}
use galculus.Core.Wire.{Bytes, IsBytes, sized-IsBytes}
use galculus.Core.Message.{Message, text_event}
use galculus.Core.Transport.Framed.{to_frame}
use galculus.Core.Tcp.{Winsock, TcpByteTransport, connect_to, listen_once}
use galculus.Core.Tcp.Streams.{IsStream}
use galculus.Core.Tcp.Frames.{IsOpen}
use galculus.Core.Tcp.Messages.{IsCarried, Closes, short-IsCarried, framed_sends, framed_receives}
use galculus.Nodes.Pair.{
  note, ack, acked, heard, acknowledge, accepted, server_main, replied, noted, tell, reached,
  client_main,
}

ack-IsCarried : (source : Bytes) → IsBytes source → length source < 2 ^ 30 → IsCarried (ack source)
unfolding text_event
ack-IsCarried source bytes short =
    short-IsCarried (ack source) (omega arith) (omega arith) (sized-IsBytes (codes "server") refl)
      bytes (sized-IsBytes (codes "ack") refl) (sized-IsBytes (codes "message received") refl)
      (omega arith)

note-IsCarried : IsCarried note
unfolding text_event
note-IsCarried =
    short-IsCarried note (omega arith) (omega arith) (sized-IsBytes note.source refl)
      (sized-IsBytes note.target refl) (sized-IsBytes note.event.name refl)
      (sized-IsBytes note.event.payload refl) (omega arith)

module _ (w : Winsock) (c : IsStream w) where
  -- The server prints the first message that can be carried, whoever sent it, and acknowledges it
  -- to its source.
  pub acknowledge_lem :
      (t : TcpByteTransport w) (m : Message) (rest out : Bytes)
      → IsCarried m
      → length m.source < 2 ^ 30
      → IsOpen w c t out (to_frame m ++ rest)
      → ((acknowledge w t).1 ≡ (0, some m))
        × IsOpen w c (acknowledge w t).0 (out ++ to_frame (ack m.source)) rest
  unfolding acknowledge heard acked
  acknowledge_lem t m rest out carried short v =
      let (t', came, v') = framed_receives w c t m rest out carried v in
      let (t'', went, v'') =
        framed_sends w c t' (ack m.source) out rest
          (ack-IsCarried m.source carried.valid.source_fits.0 short) v' in
      rw (came, went) (refl, v'')

  pub tell_lem :
      (t : TcpByteTransport w) (m : Message) (rest out : Bytes)
      → IsCarried m
      → IsOpen w c t out (to_frame m ++ rest)
      → ((tell w t).1 ≡ (0, some m)) × IsOpen w c (tell w t).0 (out ++ to_frame note) rest
  unfolding tell noted replied
  tell_lem t m rest out carried v =
      let (t', went, v') = framed_sends w c t note out (to_frame m ++ rest) note-IsCarried v in
      let (t'', came, v'') = framed_receives w c t' m rest (out ++ to_frame note) carried v' in
      rw (went, came) (refl, v'')

module _ (w w' : Winsock) (c : IsStream w) (c' : IsStream w') where
  -- Where one node connects and the other accepts, each over an open connection that carries bytes
  -- in parts of any size and on which the peer's message comes: the client closes its connection
  -- when exactly the frame of its event has gone out, the server when exactly the frame of its
  -- acknowledgement has, the server prints the event and the client the acknowledgement, and both
  -- end with 0.
  pub client_main-server_main_pair :
      (s here : w.State) (s' there : w'.State) (handle handle' : ℕ)
      → connect_to w s (codes "127.0.0.1") 39100 ≡ (here, some handle)
      → listen_once w' s' 39100 ≡ (there, some handle')
      → IsOpen w c
          (record { sockets = here; socket_handle = handle })
          []
          (to_frame (ack note.source))
      → IsOpen w' c' (record { sockets = there; socket_handle = handle' }) [] (to_frame note)
      → Closes w c (client_main w s).0 (to_frame note) []
        × (Closes w' c' (server_main w' s').0 (to_frame (ack note.source)) []
            × (((server_main w' s').1 ≡ (0, some note))
                × ((client_main w s).1 ≡ (0, some (ack note.source)))))
  unfolding server_main accepted client_main reached text_event
  client_main-server_main_pair s here s' there handle handle' e e' (h, v) (h', v') =
      let reply = ack note.source in
      let answered = subst (c.Holds here handle []) (sym (append-nil (to_frame reply))) v in
      let asked = subst (c'.Holds there handle' []) (sym (append-nil (to_frame note))) v' in
      let source = sized-IsBytes note.source refl in
      let t : TcpByteTransport w = record { sockets = here; socket_handle = handle } in
      let t' : TcpByteTransport w' = record { sockets = there; socket_handle = handle' } in
      let (shown, sent) =
        tell_lem w c t reply [] [] (ack-IsCarried note.source source (omega arith)) (h, answered) in
      let (told, acked_it) =
        acknowledge_lem w' c' t' note [] [] note-IsCarried (omega arith) (h', asked) in
      rw (e, e')
        (((tell w t).0, refl, sent), (((acknowledge w' t').0, refl, acked_it), (told, shown)))
