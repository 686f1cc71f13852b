-- ===== src/Channels/Lookup.antt =====
-- What the lookups in the table of libs/clipboard/src/lib.rs find.
use pc_trade.Prelude.{
  ℕ, zero, suc, ◌+◌, ◌≤◌, ◌<◌, ◌≡◌, ◌≢◌, refl, List, [], ◌∷◌, ◌++◌, none, some, false, arith, ◌==◌,
  ==_iff, Bool-cases, Option-cases, inl, inr, length, get_elem?, All-append, All,
}
use mathlib.Core.Path.{subst}
use pc_trade.Fuse.Path.{name_eq, name_eq_iff}
use pc_trade.Channels.{MsgChannel, find_peer, find_conn}

-- The ids were given out by the counter, and no two channels have the same.
abbrev pub IsDistinct : List MsgChannel → ℕ → Type 0
IsDistinct [] counter = Unit {0}
IsDistinct (c ∷ cs) counter =
    (1 ≤ c.conn_id)
    × (c.conn_id ≤ counter)
    × All (λ d. c.conn_id ≢ d.conn_id) cs
    × IsDistinct cs counter

-- The channel of a new connection is the one at the end.
pub find_conn-snoc :
    (cs : List MsgChannel) (c : MsgChannel) (counter : ℕ)
    → IsDistinct cs counter
    → counter < c.conn_id
    → find_conn (cs ++ (c ∷ [])) c.conn_id ≡ some (length cs)
unfolding find_conn
find_conn-snoc [] c counter distinct new = rw ((==_iff c.conn_id c.conn_id).1 refl) refl
find_conn-snoc (d ∷ cs) c counter (low, high, apart, distinct) new =
    let other : (d.conn_id == c.conn_id) ≡ false = ground arith in
    rw (other, find_conn-snoc cs c counter distinct new) refl

-- The end of the table is found for a peer that had no channel.
pub find_peer-snoc :
    (cs : List MsgChannel) (c : MsgChannel)
    → find_peer cs c.peer_id ≡ none
    → find_peer (cs ++ (c ∷ [])) c.peer_id ≡ some (length cs, c.conn_id)
unfolding find_peer
find_peer-snoc [] c e = rw ((name_eq_iff c.peer_id c.peer_id).1 refl) refl
find_peer-snoc (d ∷ cs) c e = elim (Bool-cases (name_eq d.peer_id c.peer_id)) [
  | inl same ↦ taken (zero, d.conn_id) (rw same at e)
  | inr other ↦ elim (Option-cases (find_peer cs c.peer_id)) [
    | inl missing ↦ rw (other, find_peer-snoc cs c missing) refl
    | inr ((i, id), found) ↦ taken (suc i, id) (rw (other, found) at e)
  ]
]
  where
    taken : {A : Type 0} (x : ℕ × ℕ) → some x ≡ none → A
    taken x e = cc

All-at :
    (P : MsgChannel → Type 0) (cs : List MsgChannel) (i : ℕ) (c : MsgChannel)
    → All P cs
    → get_elem? cs i ≡ some c
    → P c
All-at P [] i c all e = cc
All-at P (d ∷ cs) zero c (p, all) e = rw (inj d c e) at p
  where
    inj : (x y : MsgChannel) → some x ≡ some y → x ≡ y
    inj x y e = cc
All-at P (d ∷ cs) (suc i) c (p, all) e = All-at P cs i c all e

-- The channel at this place belongs to the peer, has this id, and is the first that has it.
pub record Reached (cs : List MsgChannel) (peer_id : List ℕ) (id place : ℕ) : Type 0 where
  pub channel : MsgChannel
  pub there : get_elem? cs place ≡ some channel
  pub owner : channel.peer_id ≡ peer_id
  pub conn : channel.conn_id ≡ id
  pub first : find_conn cs id ≡ some place

Reached-cons :
    (c : MsgChannel) (cs : List MsgChannel) (peer_id : List ℕ) (id place : ℕ)
    → All (λ d. c.conn_id ≢ d.conn_id) cs
    → Reached cs peer_id id place
    → Reached (c ∷ cs) peer_id id (suc place)
unfolding find_conn
Reached-cons c cs peer_id id place apart r =
    let ne : c.conn_id ≢ r.channel.conn_id =
      All-at (λ d. c.conn_id ≢ d.conn_id) cs place r.channel apart r.there in
    let other : (c.conn_id == id) ≡ false = differ c.conn_id r.channel.conn_id id ne r.conn in
    record {
      channel = r.channel;
      there = r.there;
      owner = r.owner;
      conn = r.conn;
      first = rw (other, r.first) refl;
    }
  where
    differ : (a b id : ℕ) → a ≢ b → b ≡ id → (a == id) ≡ false
    differ a b id ne e = ground arith

pub find_peer-Reached :
    (cs : List MsgChannel) (counter : ℕ) (peer_id : List ℕ) (x : ℕ × ℕ)
    → IsDistinct cs counter
    → find_peer cs peer_id ≡ some x
    → Reached cs peer_id x.1 x.0
unfolding find_peer find_conn
find_peer-Reached [] counter peer_id x distinct e = cc
find_peer-Reached (c ∷ cs) counter peer_id x (low, high, apart, distinct) e =
    elim (Bool-cases (name_eq c.peer_id peer_id)) [
      | inl same ↦
          moved (zero, c.conn_id) (rw same at e)
            (record {
              channel = c;
              there = refl;
              owner = (name_eq_iff c.peer_id peer_id).0 same;
              conn = refl;
              first = rw ((==_iff c.conn_id c.conn_id).1 refl) refl;
            })
      | inr other ↦ elim (Option-cases (find_peer cs peer_id)) [
        | inl missing ↦ nothing x (rw (other, missing) at e)
        | inr (y, found) ↦
            moved (suc y.0, y.1) (rw (other, found) at e)
              (Reached-cons c cs peer_id y.1 y.0 apart
                (find_peer-Reached cs counter peer_id y distinct found))
      ]
    ]
  where
    inj : (x y : ℕ × ℕ) → some x ≡ some y → x ≡ y
    inj x y e = cc

    moved :
        (y : ℕ × ℕ)
        → some y ≡ some x
        → Reached (c ∷ cs) peer_id y.1 y.0
        → Reached (c ∷ cs) peer_id x.1 x.0
    moved y e r = subst (λ (z : ℕ × ℕ). Reached (c ∷ cs) peer_id z.1 z.0) (inj y x e) r

    nothing : {A : Type 0} (x : ℕ × ℕ) → none ≡ some x → A
    nothing x e = cc

pub IsDistinct-snoc :
    (cs : List MsgChannel) (c : MsgChannel) (counter : ℕ)
    → IsDistinct cs counter
    → c.conn_id ≡ counter + 1
    → IsDistinct (cs ++ (c ∷ [])) (counter + 1)
IsDistinct-snoc [] c counter distinct new = (omega arith, omega arith, tt, tt)
IsDistinct-snoc (d ∷ cs) c counter (low, high, apart, distinct) new = (
  low,
  omega arith,
  All-append _ cs (c ∷ []) apart ((λ e. omega arith), tt),
  IsDistinct-snoc cs c counter distinct new,
)
