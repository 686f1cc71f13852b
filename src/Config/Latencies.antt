-- ===== src/Config/Latencies.antt =====
-- The latencies that libs/hbb_common/src/config.rs keeps of the servers, after one is told.
use pc_trade.Prelude.{
  ℕ, ◌≡◌, ◌≢◌, Option, none, some, inl, inr, refl, List, [], ◌∷◌, false, if◌then◌else◌, Bool-cases,
  All,
}
use mathlib.Core.Path.{subst, sym}
use pc_trade.Fuse.Path.{name_eq, name_eq_iff}
use pc_trade.Config.Stored.{name_eq-differ}
use pc_trade.Config.Settings.{Latencies, insert_latency}

-- What is told of a server by its name
abbrev pub lookup : Latencies → List ℕ → Option ℕ
lookup [] name = none
lookup ((h, l) ∷ rest) name = if name_eq h name then some l else lookup rest name

-- No server has two latencies.
abbrev pub AreDistinct : Latencies → Type 0
AreDistinct [] = Unit {0}
AreDistinct ((h, l) ∷ rest) = All (λ (e : List ℕ × ℕ). e.0 ≢ h) rest × AreDistinct rest

pub lookup-insert_latency :
    (online : Latencies) (host : List ℕ) (latency : ℕ)
    → lookup (insert_latency online host latency) host ≡ some latency
unfolding insert_latency
lookup-insert_latency [] host latency = rw ((name_eq_iff host host).1 refl) refl
lookup-insert_latency ((h, l) ∷ rest) host latency = elim (Bool-cases (name_eq h host)) [
  | inl same ↦ rw (same, (name_eq_iff host host).1 refl) refl
  | inr other ↦ rw (other, other) (lookup-insert_latency rest host latency)
]

pub lookup-insert_latency_other :
    (online : Latencies) (host name : List ℕ) (latency : ℕ)
    → name ≢ host
    → lookup (insert_latency online host latency) name ≡ lookup online name
unfolding insert_latency
lookup-insert_latency_other [] host name latency ne =
    rw (name_eq-differ host name host ne ((name_eq_iff host host).1 refl)) refl
lookup-insert_latency_other ((h, l) ∷ rest) host name latency ne =
    elim (Bool-cases (name_eq h host)) [
      | inl same ↦
          rw
            (
              same,
              name_eq-differ host name host ne ((name_eq_iff host host).1 refl),
              name_eq-differ h name host ne same,
            )
            refl
      | inr other ↦ elim (Bool-cases (name_eq h name)) [
        | inl found ↦ rw (other, found) refl
        | inr missed ↦ rw (other, missed) (lookup-insert_latency_other rest host name latency ne)
      ]
    ]

All-insert_latency :
    (online : Latencies) (host name : List ℕ) (latency : ℕ)
    → host ≢ name
    → All (λ (e : List ℕ × ℕ). e.0 ≢ name) online
    → All (λ (e : List ℕ × ℕ). e.0 ≢ name) (insert_latency online host latency)
unfolding insert_latency
All-insert_latency [] host name latency ne all = (ne, tt)
All-insert_latency ((h, l) ∷ rest) host name latency ne (here, there) =
    elim (Bool-cases (name_eq h host)) [
      | inl same ↦ rw same (ne, there)
      | inr other ↦ rw other (here, All-insert_latency rest host name latency ne there)
    ]

pub insert_latency-AreDistinct :
    (online : Latencies) (host : List ℕ) (latency : ℕ)
    → AreDistinct online
    → AreDistinct (insert_latency online host latency)
unfolding insert_latency
insert_latency-AreDistinct [] host latency distinct = (tt, tt)
insert_latency-AreDistinct ((h, l) ∷ rest) host latency (fresh, distinct) =
    elim (Bool-cases (name_eq h host)) [
      | inl same ↦ rw same (
        subst (λ (name : List ℕ). All (λ (e : List ℕ × ℕ). e.0 ≢ name) rest)
            ((name_eq_iff h host).0 same) fresh,
        distinct,
      )
      | inr other ↦ rw other (
        All-insert_latency rest host h latency (differ h host other) fresh,
        insert_latency-AreDistinct rest host latency distinct,
      )
    ]
  where
    differ : (a b : List ℕ) → name_eq a b ≡ false → b ≢ a
    differ a b e same = let equal = (name_eq_iff a b).1 (sym same) in cc
