-- ===== src/Channels/Tests.antt =====
-- A run of the table of libs/clipboard/src/lib.rs.
use pc_trade.Prelude.{ℕ, ◌≡◌, refl, List, [], ◌∷◌, some, get_elem?, set, arith}
use pc_trade.Cliprdr.{monitor_ready}
use pc_trade.Channels.{
  MsgChannel, start, get_rx_cliprdr_client, get_rx_cliprdr_server, queue, send_data,
}
use pc_trade.Channels.Delivery.{Connected, client_lem}

abbrev peer : List ℕ
peer = 112 ∷ []

client_lem_example :
    let r = get_rx_cliprdr_client start peer in
    Connected start peer r
    × ((c : MsgChannel) × (get_elem? r.1.channels r.0.1 ≡ some c)
        × (send_data r.1 r.0.0 monitor_ready
            ≡ record r.1 { channels = set r.1.channels r.0.1 (queue c monitor_ready) }))
client_lem_example = client_lem start peer monitor_ready tt (omega arith)

-- The server of a connection reads what its client was sent.
met :
    let (_, t) = get_rx_cliprdr_client start peer in
    let (place, t) = get_rx_cliprdr_server (send_data t 1 monitor_ready) 1 in
    get_elem? t.channels place
    ≡ some (record { peer_id = peer; conn_id = 1; waiting = monitor_ready ∷ [] })
unfolding get_rx_cliprdr_client get_rx_cliprdr_server send_data
met = refl
