-- ===== src/Tests/Relaying.antt =====
-- Runs of the relay of src/object/tcp.rs between two connections.
use rog.Prelude.{◌≡◌, refl, true, false, some, List, [], ◌∷◌, inr, arith, Writer, write_all}
use rog.RunStream.{arrives, Stream, read}
use rog.Relay.Copy.{
  reading, turn, start, relay_step, reads, writes, leaves, Relay, Side, on_left, on_right, relay,
}
use rog.Relay.Copy.Stops.{is_gone}
use rog.Relay.Copy.Runs.{begin, farewell, relay_ends}
use rog.Relay.Tcp.{handle_tcp_connection}
use rog.Relay.Tcp.Carried.{carrying, Carried, tcp_relayed}

abbrev server_r : Stream
server_r = arrives (1 ∷ 2 ∷ []) ∷ arrives (3 ∷ []) ∷ []

abbrev client_r : Stream
client_r = arrives (4 ∷ []) ∷ []

abbrev w : Writer
w = record { written = []; room = 10 }

abbrev schedule : List (Side carrying carrying)
schedule =
    on_left reads
    ∷ on_right reads
    ∷ on_left writes
    ∷ on_right writes
    ∷ on_right reads
    ∷ on_right leaves
    ∷ []

relay_ends_example :
    let s =
      relay carrying carrying
        (relay carrying carrying (begin carrying carrying server_r w 7 client_r w 0) schedule)
        (farewell carrying carrying server_r w 7 client_r w 0) in
    (is_gone carrying s.left.phase ≡ true) × (is_gone carrying s.right.phase ≡ true)
unfolding relay relay_step turn start read write_all
relay_ends_example =
    relay_ends carrying carrying server_r w 7 client_r w 0 schedule (omega arith) (omega arith)
      (inr refl)

abbrev begun : Relay carrying carrying
unfolding handle_tcp_connection start
begun = record {
  cancelled = false;
  left = record {
    reader = server_r;
    writer = record { written = 9 ∷ []; room = 9 };
    phase = reading;
    seen = [];
    put = [];
    counted = 1;
  };
  right = record {
    reader = client_r;
    writer = w;
    phase = reading;
    seen = [];
    put = [];
    counted = 0;
  };
}

tcp_relayed_example :
    Carried server_r w (9 ∷ []) (relay carrying carrying begun schedule).left
    × Carried client_r w [] (relay carrying carrying begun schedule).right
unfolding handle_tcp_connection start write_all
tcp_relayed_example = tcp_relayed (some (9 ∷ [])) client_r server_r w w schedule begun refl
