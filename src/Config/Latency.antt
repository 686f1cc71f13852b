-- ===== src/Config/Latency.antt =====
-- The choice of the rendezvous server in libs/hbb_common/src/config.rs.
use pc_trade.Prelude.{
  ℕ, ◌<◌, ◌≤◌, ◌≡◌, ◌≢◌, some, ◌||◌, ◌⊎◌, inl, inr, refl, ap, List, [], ◌∷◌, Bool, true, false,
  ◌&&◌, ltb, Bool-cases, arith, All, ltb→lt,
}
use mathlib.Core.Path.{subst, sym}
use pc_trade.Fuse.Path.{name_eq, name_eq_iff}
use pc_trade.Config.Latencies.{
  lookup, AreDistinct, lookup-insert_latency, lookup-insert_latency_other,
  insert_latency-AreDistinct,
}
use pc_trade.Config.Settings.{
  Latencies, Settings, Written, int_max, insert_latency, fastest, chosen_server, update_latency,
}

-- The first has the least positive latency, none is below it.
abbrev pub IsBelow : ℕ → Latencies → Type 0
IsBelow delay online = All (λ (e : List ℕ × ℕ). 0 < e.1 → delay ≤ e.1) online

fastest_le :
    (online : Latencies) (host : List ℕ) (delay : ℕ) → (fastest online (host, delay)).1 ≤ delay
unfolding fastest
fastest_le [] host delay = omega arith
fastest_le ((h, d) ∷ rest) host delay = elim (Bool-cases (ltb 0 d && ltb d delay)) [
  | inl better ↦
      let below = fastest_le rest h d in
      let less : d < delay = ltb→lt d delay (right (ltb 0 d) (ltb d delay) better) in
      rw better (le_trans (fastest rest (h, d)).1 d delay below less)
  | inr other ↦ rw other (fastest_le rest host delay)
]
  where
    right : (a b : Bool) → (a && b) ≡ true → b ≡ true
    right a b e = ground arith

    le_trans : (a b c : ℕ) → a ≤ b → b < c → a ≤ c
    le_trans a b c h k = omega arith

fastest-IsBelow :
    (online : Latencies) (host : List ℕ) (delay : ℕ)
    → IsBelow (fastest online (host, delay)).1 online
unfolding fastest
fastest-IsBelow [] host delay = tt
fastest-IsBelow ((h, d) ∷ rest) host delay = elim (Bool-cases (ltb 0 d && ltb d delay)) [
  | inl better ↦
      let found : fastest ((h, d) ∷ rest) (host, delay) ≡ fastest rest (h, d) = rw better refl in
      moved found ((λ low. fastest_le rest h d), fastest-IsBelow rest h d)
  | inr other ↦
      let found : fastest ((h, d) ∷ rest) (host, delay) ≡ fastest rest (host, delay) =
        rw other refl in
      let le = fastest_le rest host delay in
      moved found (
        (λ low. not_less (fastest rest (host, delay)).1 d delay low other le),
        fastest-IsBelow rest host delay,
      )
]
  where
    not_less : (c a b : ℕ) → 0 < a → (ltb 0 a && ltb a b) ≡ false → c ≤ b → c ≤ a
    not_less c a b low e le = ground arith

    moved : {x y : List ℕ × ℕ} → x ≡ y → IsBelow y.1 ((h, d) ∷ rest) → IsBelow x.1 ((h, d) ∷ rest)
    moved e below = subst (λ (z : List ℕ × ℕ). IsBelow z.1 ((h, d) ∷ rest)) (sym e) below

-- The server is listed with this latency.
abbrev pub IsListed : List ℕ × ℕ → Latencies → Type 0
IsListed x [] = ◌≡◌ {A = ℕ} 1 0
IsListed x (y ∷ ys) = (x ≡ y) ⊎ IsListed x ys

fastest-IsListed :
    (online : Latencies) (x : List ℕ × ℕ)
    → (fastest online x ≡ x) ⊎ (IsListed (fastest online x) online × 0 < (fastest online x).1)
unfolding fastest
fastest-IsListed [] (host, delay) = inl refl
fastest-IsListed ((h, d) ∷ rest) (host, delay) = elim (Bool-cases (ltb 0 d && ltb d delay)) [
  | inl better ↦
      let found : fastest ((h, d) ∷ rest) (host, delay) ≡ fastest rest (h, d) = rw better refl in
      inr (
        subst (λ (z : List ℕ × ℕ). IsListed z ((h, d) ∷ rest) × 0 < z.1) (sym found)
          (taken (ltb→lt 0 d (left (ltb 0 d) (ltb d delay) better)) (fastest-IsListed rest (h, d))))
  | inr other ↦
      let found : fastest ((h, d) ∷ rest) (host, delay) ≡ fastest rest (host, delay) =
        rw other refl in
      subst (λ (z : List ℕ × ℕ). (z ≡ (host, delay)) ⊎ (IsListed z ((h, d) ∷ rest) × 0 < z.1))
        (sym found) (later (fastest-IsListed rest (host, delay)))
]
  where
    left : (a b : Bool) → (a && b) ≡ true → a ≡ true
    left a b e = ground arith

    taken :
        0 < d
        → {z : List ℕ × ℕ} → (z ≡ (h, d)) ⊎ (IsListed z rest × 0 < z.1)
        → IsListed z ((h, d) ∷ rest) × 0 < z.1
    taken low (inl e) = (inl e, rw e low)
    taken low (inr (listed, positive)) = (inr listed, positive)

    later :
        {z : List ℕ × ℕ}
        → (z ≡ (host, delay)) ⊎ (IsListed z rest × 0 < z.1)
        → (z ≡ (host, delay)) ⊎ (IsListed z ((h, d) ∷ rest) × 0 < z.1)
    later (inl e) = inl e
    later (inr (listed, positive)) = inr (inr listed, positive)

-- What the choice of the server promises: the server has the least positive latency; or no server has
-- one that is below the greatest i64, or the fastest one has an empty name, and then the server stays.
pub data Chosen (s after : Settings) : Type 0 where
  fastest_server :
      (delay : ℕ)
      → IsListed (after.rendezvous_server, delay) after.online
      → 0 < delay
      → IsBelow delay after.online
      → Chosen s after
  nobody :
      IsBelow int_max after.online → after.rendezvous_server ≡ s.rendezvous_server → Chosen s after
  nameless :
      (delay : ℕ)
      → IsListed ([], delay) after.online
      → 0 < delay
      → IsBelow delay after.online
      → after.rendezvous_server ≡ s.rendezvous_server
      → Chosen s after

Chosen-as :
    (s : Settings) (online : Latencies) (best : List ℕ) (delay : ℕ)
    → IsBelow delay online
    → (◌≡◌ {A = List ℕ × ℕ} (best, delay) ([], int_max))
      ⊎ (IsListed (best, delay) online × 0 < delay)
    → Chosen s (chosen_server s online best).1
Chosen-as s online best delay below (inl e) =
    let none_named : best ≡ [] = ap (λ (x : List ℕ × ℕ). x.0) e in
    let most : delay ≡ int_max = ap (λ (x : List ℕ × ℕ). x.1) e in
    let stays : chosen_server s online best ≡ (false, record s { online = online }) =
      rw ((name_eq_iff best []).1 none_named) refl in
    subst (λ (w : Written). Chosen s w.1) (sym stays)
      (nobody (subst (λ (d : ℕ). IsBelow d online) most below) refl)
Chosen-as s online best delay below (inr (listed, positive)) = elim (Bool-cases (name_eq best [])) [
  | inl empty ↦
      let stays : chosen_server s online best ≡ (false, record s { online = online }) =
        rw empty refl in
      subst (λ (w : Written). Chosen s w.1) (sym stays)
        (nameless delay
          (subst (λ (b : List ℕ). IsListed (b, delay) online) ((name_eq_iff best []).0 empty)
            listed)
          positive below refl)
  | inr named ↦ elim (Bool-cases (name_eq best s.rendezvous_server)) [
    | inl same ↦
        let stays : chosen_server s online best ≡ (false, record s { online = online }) =
          rw (named, same) refl in
        subst (λ (w : Written). Chosen s w.1) (sym stays)
          (fastest_server delay
            (subst (λ (b : List ℕ). IsListed (b, delay) online)
              ((name_eq_iff best s.rendezvous_server).0 same) listed)
            positive below)
    | inr other ↦
        let moves : chosen_server s online best
            ≡ (true, record s { online = online; rendezvous_server = best }) =
          rw (named, other) refl in
        subst (λ (w : Written). Chosen s w.1) (sym moves)
          (fastest_server delay listed positive below)
  ]
]

-- What is left when a latency is told: it is the server's, the others keep theirs, and the rendezvous
-- server is chosen of them.
pub record Told (s : Settings) (host : List ℕ) (latency : ℕ) (after : Settings) : Type 0 where
  pub stored : lookup after.online host ≡ some latency
  pub others : (name : List ℕ) → name ≢ host → lookup after.online name ≡ lookup s.online name
  pub distinct : AreDistinct after.online
  pub server : Chosen s after

chosen_server-online :
    (s : Settings) (online : Latencies) (host : List ℕ)
    → (chosen_server s online host).1.online ≡ online
chosen_server-online s online host =
    elim (Bool-cases (name_eq host [] || name_eq host s.rendezvous_server)) [
      | inl stays ↦ rw stays refl
      | inr moves ↦ rw moves refl
    ]

-- After the latency of a server is told, it is the latency of that server, in place of the one before;
-- every other server keeps its own. The rendezvous server is one with the least positive latency of
-- all of these; if there is none that is below the greatest i64, or the server with the least one has
-- an empty name, then the rendezvous server stays as it was. (Where no server had two latencies.)
pub update_latency_lem :
    (s : Settings) (host : List ℕ) (latency : ℕ)
    → AreDistinct s.online
    → Told s host latency (update_latency s host latency).1
unfolding update_latency
update_latency_lem s host latency distinct =
    let online = insert_latency s.online host latency in
    let best = fastest online ([], int_max) in
    let same = sym (chosen_server-online s online best.0) in
    record {
      stored =
          subst (λ (m : Latencies). lookup m host ≡ some latency) same
            (lookup-insert_latency s.online host latency);
      others = λ name ne.
          subst (λ (m : Latencies). lookup m name ≡ lookup s.online name) same
            (lookup-insert_latency_other s.online host name latency ne);
      distinct =
          subst (λ (m : Latencies). AreDistinct m) same
            (insert_latency-AreDistinct s.online host latency distinct);
      server =
          Chosen-as s online best.0 best.1 (fastest-IsBelow online [] int_max)
            (fastest-IsListed online ([], int_max));
    }
