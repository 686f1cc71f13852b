-- ===== src/Config/Settings.antt =====
-- Settings of `Config` and `Config2` in libs/hbb_common/src/config.rs. Each setter answers whether the
-- file is written, and the settings; the locks and the files are left out.
use pc_trade.Prelude.{
  ℕ, ◌-◌, ◌^◌, List, [], ◌∷◌, Bool, true, false, not, ◌==◌, ◌&&◌, ◌||◌, ltb, if◌then◌else◌,
}
use pc_trade.Fuse.Path.{name_eq}

-- The latency of a server by its name; an i64 by its 64-bit pattern.
abbrev pub Latencies : Type 0
Latencies = List (List ℕ × ℕ)

abbrev pub Confirmed : Type 0
Confirmed = List (List ℕ × Bool)

pub record Settings : Type 0 where
  pub id : List ℕ
  pub key_confirmed : Bool
  pub keys_confirmed : Confirmed
  pub rendezvous_server : List ℕ
  pub nat_type : ℕ
  pub serial : ℕ
  pub unlock_pin : List ℕ
  pub online : Latencies

abbrev pub Written : Type 0
Written = Bool × Settings

abbrev pub int_max : ℕ
int_max = 2 ^ 63 - 1

unfoldable pub insert_latency : Latencies → List ℕ → ℕ → Latencies
insert_latency [] host latency = (host, latency) ∷ []
insert_latency ((h, l) ∷ rest) host latency =
    let later = insert_latency rest host latency in
    if name_eq h host then (host, latency) ∷ rest else (h, l) ∷ later

-- The least positive latency so far and its server.
unfoldable pub fastest : Latencies → List ℕ × ℕ → List ℕ × ℕ
fastest [] (host, delay) = (host, delay)
fastest ((tmp_host, tmp_delay) ∷ rest) (host, delay) =
    if ltb 0 tmp_delay && ltb tmp_delay delay
    then fastest rest (tmp_host, tmp_delay)
    else fastest rest (host, delay)

abbrev pub chosen_server : Settings → Latencies → (host : List ℕ) → Written
chosen_server s online host =
    if name_eq host [] || name_eq host s.rendezvous_server
    then (false, record s { online = online })
    else (true, record s { online = online; rendezvous_server = host })

unfoldable pub update_latency : Settings → (host : List ℕ) → (latency : ℕ) → Written
unfolding insert_latency fastest
update_latency s host latency =
    let online = insert_latency s.online host latency in
    chosen_server s online (fastest online ([], int_max)).0

unfoldable pub reset_online : Settings → Settings
reset_online s = record s { online = [] }

unfoldable pub set_id : Settings → List ℕ → Written
set_id s id = if name_eq id s.id then (false, s) else (true, record s { id = id })

unfoldable pub set_nat_type : Settings → ℕ → Written
set_nat_type s nat_type =
    if nat_type == s.nat_type then (false, s) else (true, record s { nat_type = nat_type })

unfoldable pub set_serial : Settings → ℕ → Written
set_serial s serial =
    if serial == s.serial then (false, s) else (true, record s { serial = serial })

unfoldable pub set_unlock_pin : Settings → List ℕ → Written
set_unlock_pin s pin =
    if name_eq pin s.unlock_pin then (false, s) else (true, record s { unlock_pin = pin })

abbrev pub bool_eq : Bool → Bool → Bool
bool_eq true b = b
bool_eq false b = not b

unfoldable pub set_key_confirmed : Settings → Bool → Written
set_key_confirmed s v =
    if bool_eq s.key_confirmed v
    then (false, s)
    else (true, record s { key_confirmed = v; keys_confirmed = if v then s.keys_confirmed else [] })

unfoldable pub get_host_key_confirmed : Confirmed → (host : List ℕ) → Bool
get_host_key_confirmed [] host = false
get_host_key_confirmed ((h, v) ∷ rest) host =
    if name_eq h host then v else get_host_key_confirmed rest host

-- An entry is put before those of the same host.
unfoldable pub set_host_key_confirmed : Settings → (host : List ℕ) → Bool → Written
unfolding get_host_key_confirmed
set_host_key_confirmed s host v =
    if bool_eq (get_host_key_confirmed s.keys_confirmed host) v
    then (false, s)
    else (true, record s { keys_confirmed = (host, v) ∷ s.keys_confirmed })

unfoldable pub get_id_or : Settings → List ℕ → List ℕ
get_id_or s b = if name_eq s.id [] then b else s.id
