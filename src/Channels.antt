-- ===== src/Channels.antt =====
-- The table of channels of libs/clipboard/src/lib.rs (`VEC_MSG_CHANNEL` and the counter of
-- connections). A receiver is the place of its channel in the table, and a channel the messages that
-- wait in it; no receiver is ever dropped, since the table holds it. The locks are left out.
pub mod Lookup
pub mod Delivery
mod Tests
use pc_trade.Prelude.{
  ℕ, zero, suc, ◌+◌, ◌%◌, ◌^◌, List, [], ◌∷◌, ◌++◌, Option, none, some, Bool, true, false, ◌==◌,
  if◌then◌else◌, length,
}
use pc_trade.Cliprdr.{ClipboardFile}
use pc_trade.Fuse.Path.{name_eq}

pub record MsgChannel : Type 0 where
  pub peer_id : List ℕ
  pub conn_id : ℕ
  pub waiting : List ClipboardFile

-- `VEC_MSG_CHANNEL` and `CLIENT_CONN_ID_COUNTER`
pub record Table : Type 0 where
  pub channels : List MsgChannel
  pub counter : ℕ

abbrev pub start : Table
start = record { channels = []; counter = 0 }

-- `iter().find` with the place of what it finds
unfoldable pub find_peer : List MsgChannel → List ℕ → Option (ℕ × ℕ)
find_peer [] peer_id = none
find_peer (c ∷ cs) peer_id =
    let later = find_peer cs peer_id in
    if name_eq c.peer_id peer_id
    then some (zero, c.conn_id)
    else elim later [ none ↦ none | some (i, id) ↦ some (suc i, id) ]

unfoldable pub find_conn : List MsgChannel → ℕ → Option ℕ
find_conn [] conn_id = none
find_conn (c ∷ cs) conn_id =
    let later = find_conn cs conn_id in
    if c.conn_id == conn_id then some zero else elim later [ none ↦ none | some i ↦ some (suc i) ]

abbrev pub conn_of : Option (ℕ × ℕ) → Option ℕ
conn_of none = none
conn_of (some (i, id)) = some id

unfoldable pub get_client_conn_id : Table → List ℕ → Option ℕ
unfolding find_peer
get_client_conn_id t peer_id = conn_of (find_peer t.channels peer_id)

-- the next number of the counter, an i32
abbrev pub next_id : Table → ℕ
next_id t = (t.counter + 1) % 2 ^ 32

abbrev pub client_as : Table → List ℕ → Option (ℕ × ℕ) → (ℕ × ℕ) × Table
client_as t peer_id (some (i, id)) = ((id, i), t)
client_as t peer_id none = (
  (next_id t, length t.channels),
  record {
    channels = t.channels ++ (record { peer_id = peer_id; conn_id = next_id t; waiting = [] } ∷ []);
    counter = next_id t;
  },
)

-- The id of the connection and the place of its receiver, and the table.
unfoldable pub get_rx_cliprdr_client : Table → (peer_id : List ℕ) → (ℕ × ℕ) × Table
unfolding find_peer
get_rx_cliprdr_client t peer_id = client_as t peer_id (find_peer t.channels peer_id)

abbrev pub server_as : Table → ℕ → Option ℕ → ℕ × Table
server_as t conn_id (some i) = (i, t)
server_as t conn_id none = (
  length t.channels,
  record t {
    channels = t.channels ++ (record { peer_id = []; conn_id = conn_id; waiting = [] } ∷ []);
  },
)

unfoldable pub get_rx_cliprdr_server : Table → (conn_id : ℕ) → ℕ × Table
unfolding find_conn
get_rx_cliprdr_server t conn_id = server_as t conn_id (find_conn t.channels conn_id)

abbrev pub queue : MsgChannel → ClipboardFile → MsgChannel
queue c m = record c { waiting = c.waiting ++ (m ∷ []) }

-- The message goes to the first channel with the id.
unfoldable pub send_first : List MsgChannel → ℕ → ClipboardFile → List MsgChannel
send_first [] conn_id m = []
send_first (c ∷ cs) conn_id m =
    let later = send_first cs conn_id m in
    if c.conn_id == conn_id then queue c m ∷ cs else c ∷ later

-- Whether there is such a connection, and the table.
unfoldable pub send_data_to_channel : Table → ℕ → ClipboardFile → Bool × Table
unfolding find_conn send_first
send_data_to_channel t conn_id m = (
  elim (find_conn t.channels conn_id) [ none ↦ false | some _ ↦ true ],
  record t { channels = send_first t.channels conn_id m },
)

unfoldable pub send_data_to_all : Table → ClipboardFile → Table
send_data_to_all t m = record t { channels = all t.channels }
  where
    all : List MsgChannel → List MsgChannel
    all [] = []
    all (c ∷ cs) = queue c m ∷ all cs

-- `send_data` where the system is not Windows
unfoldable pub send_data : Table → (conn_id : ℕ) → ClipboardFile → Table
unfolding send_data_to_all send_data_to_channel
send_data t conn_id m =
    if conn_id == 0 then send_data_to_all t m else (send_data_to_channel t conn_id m).1
