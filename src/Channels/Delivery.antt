-- ===== src/Channels/Delivery.antt =====
-- Where the messages of libs/clipboard/src/lib.rs go.
use pc_trade.Prelude.{
  ℕ, zero, suc, ◌+◌, ◌^◌, ◌≤◌, ◌<◌, ◌≡◌, refl, sym, ap, ◌∙◌, List, [], ◌∷◌, ◌++◌, Option, none,
  some, true, false, arith, ◌==◌, Bool-cases, Option-cases, inl, inr, get_elem?, set,
  get_elem?-snoc_last,
}
use mathlib.Core.Path.{subst}
use pc_trade.Cliprdr.{ClipboardFile}
use pc_trade.Channels.{
  MsgChannel, Table, find_peer, find_conn, get_client_conn_id, next_id, client_as,
  get_rx_cliprdr_client, queue, send_first, send_data_to_channel, send_data,
}
use pc_trade.Channels.Lookup.{
  IsDistinct, find_conn-snoc, find_peer-snoc, Reached, find_peer-Reached, IsDistinct-snoc,
}

-- A message goes to the end of the channel that is found, and to no other.
send_first-set :
    (cs : List MsgChannel) (id place : ℕ) (c : MsgChannel) (m : ClipboardFile)
    → find_conn cs id ≡ some place
    → get_elem? cs place ≡ some c
    → send_first cs id m ≡ set cs place (queue c m)
unfolding find_conn send_first
send_first-set [] id place c m e there = cc
send_first-set (d ∷ cs) id place c m e there = elim (Bool-cases (d.conn_id == id)) [
  | inl same ↦ at_head place there (rw same at e) same
  | inr other ↦ elim (Option-cases (find_conn cs id)) [
    | inl missing ↦ nothing place (rw (other, missing) at e)
    | inr (j, found) ↦
        behind place there j (rw (other, found) at e) found other
          (λ k there found. send_first-set cs id k c m found there)
  ]
]
  where
    at_head :
        (place : ℕ)
        → get_elem? (d ∷ cs) place ≡ some c
        → some zero ≡ some place
        → (d.conn_id == id) ≡ true
        → send_first (d ∷ cs) id m ≡ set (d ∷ cs) place (queue c m)
    at_head zero there e same = rw same (ap (λ x. queue x m ∷ cs) (inj d c there))
      where
        inj : (x y : MsgChannel) → some x ≡ some y → x ≡ y
        inj x y e = cc
    at_head (suc place) there e same = cc

    behind :
        (place : ℕ)
        → get_elem? (d ∷ cs) place ≡ some c
        → (j : ℕ) → some (suc j) ≡ some place
        → find_conn cs id ≡ some j
        → (d.conn_id == id) ≡ false
        → ((k : ℕ)
            → get_elem? cs k ≡ some c
            → find_conn cs id ≡ some k
            → send_first cs id m ≡ set cs k (queue c m))
        → send_first (d ∷ cs) id m ≡ set (d ∷ cs) place (queue c m)
    behind zero there j e found other below = cc
    behind (suc place) there j e found other below =
        rw other (ap (λ xs. d ∷ xs) (below place there (found ∙ ap some (suc_inj j place e))))
      where
        suc_inj : (j k : ℕ) → some (suc j) ≡ some (suc k) → j ≡ k
        suc_inj j k e = omega (arith, some_inj (suc j) (suc k) e)
          where
            some_inj : (a b : ℕ) → some a ≡ some b → a ≡ b
            some_inj a b e = cc

    nothing : {A : Type 0} (x : ℕ) → none ≡ some x → A
    nothing x e = cc

-- What `get_rx_cliprdr_client` promises of the id and the receiver that it answers.
pub record Connected (t : Table) (peer_id : List ℕ) (r : (ℕ × ℕ) × Table) : Type 0 where
  pub distinct : IsDistinct r.1.channels r.1.counter
  pub known : get_client_conn_id r.1 peer_id ≡ some r.0.0
  pub again : get_rx_cliprdr_client r.1 peer_id ≡ r
  pub reached : Reached r.1.channels peer_id r.0.0 r.0.1

ids_from_one :
    (cs : List MsgChannel) (counter i : ℕ) (c : MsgChannel)
    → IsDistinct cs counter
    → get_elem? cs i ≡ some c
    → 1 ≤ c.conn_id
ids_from_one [] counter i c distinct e = cc
ids_from_one (d ∷ cs) counter zero c (low, high, apart, distinct) e = rw (inj d c e) at low
  where
    inj : (x y : MsgChannel) → some x ≡ some y → x ≡ y
    inj x y e = cc
ids_from_one (d ∷ cs) counter (suc i) c (low, high, apart, distinct) e =
    ids_from_one cs counter i c distinct e

-- A message to an id goes to the channel that is reached.
send_data-Reached :
    (t : Table) (peer_id : List ℕ) (id place : ℕ) (m : ClipboardFile)
    → IsDistinct t.channels t.counter
    → Reached t.channels peer_id id place
    → (c : MsgChannel) × (get_elem? t.channels place ≡ some c)
      × (send_data t id m ≡ record t { channels = set t.channels place (queue c m) })
unfolding send_data send_data_to_channel
send_data-Reached t peer_id id place m distinct r =
    let some_id : (id == 0) ≡ false =
      not_zero r.channel.conn_id id
        (ids_from_one t.channels t.counter place r.channel distinct r.there) r.conn in
    (
      r.channel,
      r.there,
      rw (some_id, send_first-set t.channels id place r.channel m r.first r.there) refl,
    )
  where
    not_zero : (a id : ℕ) → 1 ≤ a → a ≡ id → (id == 0) ≡ false
    not_zero a id h e = ground arith

join :
    (t : Table) (peer_id : List ℕ)
    → IsDistinct t.channels t.counter
    → t.counter + 1 < 2 ^ 32
    → Connected t peer_id (get_rx_cliprdr_client t peer_id)
unfolding get_rx_cliprdr_client get_client_conn_id
join t peer_id distinct room = by_place (find_peer t.channels peer_id) refl
  where
    fresh : MsgChannel
    fresh = record { peer_id = peer_id; conn_id = next_id t; waiting = [] }

    by_place :
        (x : Option (ℕ × ℕ))
        → find_peer t.channels peer_id ≡ x
        → Connected t peer_id (client_as t peer_id x)
    by_place (some (i, id)) e = record {
      distinct = distinct;
      known = rw e refl;
      again = rw e refl;
      reached = find_peer-Reached t.channels t.counter peer_id (i, id) distinct e;
    }
    by_place none e =
        let next : next_id t ≡ t.counter + 1 = omega arith in
        let found = find_peer-snoc t.channels fresh e in
        record {
          distinct =
              subst (λ (k : ℕ). IsDistinct (t.channels ++ (fresh ∷ [])) k) (sym next)
                (IsDistinct-snoc t.channels fresh t.counter distinct next);
          known = rw found refl;
          again = rw found refl;
          reached = record {
            channel = fresh;
            there = get_elem?-snoc_last t.channels fresh;
            owner = refl;
            conn = refl;
            first = find_conn-snoc t.channels fresh t.counter distinct (omega arith);
          };
        }

-- A client that asks for its channel gets an id under which it is known from then on, and the
-- receiver of the channel that messages to this id go to, and to no other; asking again gives the
-- same and changes nothing. The ids of all channels stay distinct. (Where they are distinct and were
-- given out by the counter, which has not run out.)
pub client_lem :
    (t : Table) (peer_id : List ℕ) (m : ClipboardFile)
    → IsDistinct t.channels t.counter
    → t.counter + 1 < 2 ^ 32
    → let r = get_rx_cliprdr_client t peer_id in
      Connected t peer_id r
      × ((c : MsgChannel) × (get_elem? r.1.channels r.0.1 ≡ some c)
          × (send_data r.1 r.0.0 m ≡ record r.1 { channels = set r.1.channels r.0.1 (queue c m) }))
client_lem t peer_id m distinct room =
    let joined = join t peer_id distinct room in
    let (c, there, sent) =
      send_data-Reached (get_rx_cliprdr_client t peer_id).1 peer_id
        (get_rx_cliprdr_client t peer_id).0.0 (get_rx_cliprdr_client t peer_id).0.1 m
        joined.distinct joined.reached in
    (joined, (c, there, sent))
