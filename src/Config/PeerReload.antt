-- ===== src/Config/PeerReload.antt =====
-- What is read again of the settings of a peer that libs/hbb_common/src/config.rs writes.
use pc_trade.Prelude.{
  ℕ, ◌≤◌, ◌≡◌, ◌≢◌, inl, inr, refl, ap, ◌∙◌, List, [], ◌∷◌, Option, none, some, false, length,
  Bool-cases, All, arith,
}
use pc_trade.Fuse.Path.{name_eq, name_eq_iff}
use pc_trade.PasswordSecurity.{
  Crypto, version_00, codes, encrypt, decrypt_vec_or_original, encrypt_vec_or_original,
}
use pc_trade.PasswordSecurity.Sealing.{Opens, decrypt-encrypt_vec}
use pc_trade.Config.Main.{encrypt_max_len, opened, sealed}
use pc_trade.Config.Peer.{
  PeerConfig, load, store, with_secrets, get_mut, seal_options, open_options, secret_options,
  is_stale, Styles, deserialized,
}
use pc_trade.Config.Secrets.{IsSealable, opened-sealed}
use pc_trade.Config.Options.{Texts, get}
use pc_trade.Config.Stored.{name_eq-differ}

abbrev Holds : (List ℕ → Type 0) → Option (List ℕ) → Type 0
Holds P none = Unit
Holds P (some v) = P v

abbrev mapped : (List ℕ → List ℕ) → Option (List ℕ) → Option (List ℕ)
mapped f none = none
mapped f (some v) = some (f v)

get-get_mut :
    (f : List ℕ → List ℕ) (m : Texts) (k : List ℕ) → get (get_mut f m k) k ≡ mapped f (get m k)
unfolding get
get-get_mut f [] k = refl
get-get_mut f ((j, v) ∷ rest) k = elim (Bool-cases (name_eq j k)) [
  | inl e ↦ rw (e, e) refl
  | inr e ↦ rw (e, e) (get-get_mut f rest k)
]

get-get_mut_other :
    (f : List ℕ → List ℕ) (m : Texts) (j k : List ℕ) → j ≢ k → get (get_mut f m k) j ≡ get m j
unfolding get
get-get_mut_other f [] j k ne = refl
get-get_mut_other f ((i, v) ∷ rest) j k ne = elim (Bool-cases (name_eq i k)) [
  | inl same ↦ rw (same, name_eq-differ i j k ne same) refl
  | inr kept ↦ elim (Bool-cases (name_eq i j)) [
    | inl found ↦ rw (kept, found) refl
    | inr other ↦ rw (kept, other) (get-get_mut_other f rest j k ne)
  ]
]

-- Changes of two different values come in either order.
get_mut-get_mut :
    (f g : List ℕ → List ℕ) (m : Texts) (j k : List ℕ)
    → j ≢ k
    → get_mut f (get_mut g m k) j ≡ get_mut g (get_mut f m j) k
get_mut-get_mut f g [] j k ne = refl
get_mut-get_mut f g ((i, v) ∷ rest) j k ne = elim (Bool-cases (name_eq i k)) [
  | inl same ↦ rw (same, name_eq-differ i j k ne same, same) refl
  | inr kept ↦ elim (Bool-cases (name_eq i j)) [
    | inl found ↦ rw (kept, found, kept) refl
    | inr other ↦ rw (kept, other, kept) (ap (λ t. (i, v) ∷ t) (get_mut-get_mut f g rest j k ne))
  ]
]

-- A change that gives the value back
get_mut_back :
    (f g : List ℕ → List ℕ) (m : Texts) (k : List ℕ)
    → Holds (λ v. f (g v) ≡ v) (get m k)
    → get_mut f (get_mut g m k) k ≡ m
unfolding get
get_mut_back f g [] k h = refl
get_mut_back f g ((j, v) ∷ rest) k h = elim (Bool-cases (name_eq j k)) [
  | inl e ↦ let back : f (g v) ≡ v = rw e at h in rw (e, e) (ap (λ t. (j, t) ∷ rest) back)
  | inr e ↦
      let later : Holds (λ v. f (g v) ≡ v) (get rest k) = rw e at h in
      rw (e, e) (ap (λ t. (j, v) ∷ t) (get_mut_back f g rest k later))
]

-- The keys differ from each other.
abbrev IsFresh : List ℕ → List (List ℕ) → Type 0
IsFresh k keys = All (λ j. k ≢ j) keys

abbrev AreDistinct : List (List ℕ) → Type 0
AreDistinct [] = Unit
AreDistinct (k ∷ keys) = IsFresh k keys × AreDistinct keys

module _ (c : Crypto) where
  get-seal_options :
      (keys : List (List ℕ)) (m : Texts) (k : List ℕ)
      → IsFresh k keys
      → get (seal_options c keys m) k ≡ get m k
  get-seal_options [] m k fresh = refl
  get-seal_options (j ∷ keys) m k (ne, fresh) =
      get-seal_options keys (get_mut (sealed c) m j) k fresh ∙ get-get_mut_other (sealed c) m k j ne

  get_mut-seal_options :
      (f : List ℕ → List ℕ) (keys : List (List ℕ)) (m : Texts) (k : List ℕ)
      → IsFresh k keys
      → get_mut f (seal_options c keys m) k ≡ seal_options c keys (get_mut f m k)
  get_mut-seal_options f [] m k fresh = refl
  get_mut-seal_options f (j ∷ keys) m k (ne, fresh) =
      get_mut-seal_options f keys (get_mut (sealed c) m j) k fresh
      ∙ ap (seal_options c keys) (get_mut-get_mut f (sealed c) m k j ne)

-- The options with these keys can be sealed.
abbrev pub AreSealable : Crypto → List (List ℕ) → Texts → Type 0
AreSealable c keys m = All (λ k. Holds (IsSealable c) (get m k)) keys

module _ (c : Crypto) (opens : Opens c) where
  back_option :
      (found : Option (List ℕ))
      → Holds (IsSealable c) found
      → Holds (λ v. (opened c (sealed c v)).plain ≡ v) found
  back_option none h = tt
  back_option (some v) h = ap (λ d. d.plain) (opened-sealed c opens v h)

  is_stale-sealed :
      (found : Option (List ℕ))
      → Holds (IsSealable c) found
      → is_stale c (mapped (sealed c) found) ≡ false
  is_stale-sealed none h = refl
  is_stale-sealed (some v) h = ap (λ d. d.store) (opened-sealed c opens v h)

  open_options-seal_options :
      (keys : List (List ℕ)) (m : Texts)
      → AreDistinct keys
      → AreSealable c keys m
      → open_options c keys (seal_options c keys m) false ≡ (m, false)
  open_options-seal_options [] m distinct h = refl
  open_options-seal_options (k ∷ keys) m (fresh, distinct) (here, there) =
      let open_it : List ℕ → List ℕ = λ v. (opened c v).plain in
      let m' = get_mut (sealed c) m k in
      let value : is_stale c (get (seal_options c keys m') k) ≡ false =
        ap (is_stale c) (get-seal_options c keys m' k fresh ∙ get-get_mut (sealed c) m k)
        ∙ is_stale-sealed (get m k) here in
      let back : get_mut open_it (seal_options c keys m') k ≡ seal_options c keys m =
        get_mut-seal_options c open_it keys m' k fresh
        ∙ ap (seal_options c keys)
            (get_mut_back open_it (sealed c) m k (back_option (get m k) here)) in
      rw (back, value) (open_options-seal_options keys m distinct there)

  differ : (j k : List ℕ) → name_eq j k ≡ false → j ≢ k
  differ j k e same = let equal = (name_eq_iff j k).1 same in cc

  secrets-AreDistinct : AreDistinct secret_options
  secrets-AreDistinct = (
    (
      differ (codes "rdp_password") (codes "os-username") refl,
      (differ (codes "rdp_password") (codes "os-password") refl, tt),
    ),
    ((differ (codes "os-username") (codes "os-password") refl, tt), (tt, tt)),
  )

  back_password :
      (v : List ℕ)
      → length v ≤ encrypt_max_len
      → (decrypt_vec_or_original c v version_00).success ≡ false
      → let back =
          decrypt_vec_or_original c
            (encrypt_vec_or_original c v version_00 encrypt_max_len)
            version_00 in
        (back.plain ≡ v) × (back.store ≡ false)
  unfolding decrypt_vec_or_original encrypt_vec_or_original encrypt
  back_password [] short fresh = (refl, refl)
  back_password (x ∷ xs) short fresh =
      let back =
        (decrypt-encrypt_vec c opens (x ∷ xs) encrypt_max_len (omega arith) short fresh).0 in
      (ap (λ d. d.plain) back, ap (λ d. d.store) back)

  -- Settings of a peer whose password is at most 128 bytes that are not the code of sealed ones, and
  -- whose options under the three secret keys, where they are present, are at most 128 characters of
  -- valid UTF-8 that are not such a code either, are read from the file that was written for them
  -- as they were, but for the styles: a text of them that is empty, and a list of qualities that is not
  -- one number from 10 to 4095, are the defaults of the user. The file is not written again. (Where a
  -- sealed text opens again, and TOML gives back what was written.)
  pub load-store_peer :
      {Rest : Type 0} (defaults : Styles) (default config : PeerConfig Rest)
      → length config.password ≤ encrypt_max_len
      → (decrypt_vec_or_original c config.password version_00).success ≡ false
      → AreSealable c secret_options config.options
      → load c defaults default (some (store c config))
        ≡ (record config { styles = deserialized defaults config.styles }, some (store c config))
  unfolding load store
  load-store_peer {Rest = Rest} defaults default config short fresh options =
      let file = store c config in
      let read : PeerConfig Rest = record file { styles = deserialized defaults file.styles } in
      let (plain, stale) = back_password config.password short fresh in
      ap
        (λ b.
          with_secrets c file read (decrypt_vec_or_original c file.password version_00).plain
            (open_options c secret_options file.options b))
        stale
      ∙ ap (λ p. with_secrets c file read p (open_options c secret_options file.options false))
          plain
      ∙ ap (with_secrets c file read config.password)
          (open_options-seal_options secret_options config.options secrets-AreDistinct options)
