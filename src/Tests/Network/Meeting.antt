-- ===== src/Tests/Network/Meeting.antt =====
-- The client and the server of examples/tcp_nodes/ at the two ends of a slow connection,
-- and the log of examples/hello_agent/.
use galculus.Common.{◌∷◌, codes, ◌==ᵇ◌, ◌≡◌, refl, some, []}
use galculus.Core.Transport.Framed.{to_frame}
use galculus.Core.Tcp.{connect_to, listen_once}
use galculus.Core.Tcp.Messages.{Closes}
use galculus.Nodes.Pair
use galculus.Nodes.Pair.{note, ack, tell, acknowledge}
use galculus.Nodes.Pair.Meeting.{client_main-server_main_pair}
use galculus.Nodes.Demos.{started, received, stopped, hello_main}
use galculus.Core.Runtime.{
  register_agent, start, publish_event, send, drain, run_once, dispatch, stop,
}
use galculus.Core.Message.{event_message, text}
use galculus.Core.Transport.{push, take_front, is_empty}
use galculus.Common.Dict.{lookup, insert}
use galculus.Tests.Network.{slow, slow-IsStream}

client_main-server_main_pair_example :
    Closes slow slow-IsStream
      (Pair.client_main slow ([], to_frame (ack note.source))).0
      (to_frame note)
      []
    × (Closes slow slow-IsStream
          (Pair.server_main slow ([], to_frame note)).0
          (to_frame (ack note.source))
          []
        × (((Pair.server_main slow ([], to_frame note)).1 ≡ (0, some note))
            × ((Pair.client_main slow ([], to_frame (ack note.source))).1
                ≡ (0, some (ack note.source)))))
unfolding connect_to listen_once
client_main-server_main_pair_example =
    client_main-server_main_pair slow slow slow-IsStream slow-IsStream
      ([], to_frame (ack note.source)) ([], to_frame (ack note.source)) ([], to_frame note)
      ([], to_frame note) 5 6 refl refl ((λ e. cc), refl) ((λ e. cc), refl)

hello_main_log :
    hello_main 2
    ≡ some (
      0,
      some (
          started
          ∷ received (record {
            id = 1;
            type = 0;
            source = codes "system";
            target = codes "logger";
            event = record {
              name = codes "hello";
              payload = codes "Galculus core runtime v0.1 online";
            };
          })
          ∷ stopped
          ∷ []),
    )
unfolding hello_main register_agent lookup insert start publish_event send event_message text drain
    run_once dispatch stop push take_front is_empty ◌==ᵇ◌
hello_main_log = refl
