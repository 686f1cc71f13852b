-- ===== src/Proxy/Head.antt =====
-- Lines and their ends, as libs/hbb_common/src/proxy.rs reads them.
use mathlib.Core.Path.{sym}
use pc_trade.Prelude.{
  ℕ, zero, suc, ◌+◌, ◌≤◌, ◌<◌, ◌≡◌, ◌≢◌, refl, ap, ◌∙◌, inl, inr, List, [], ◌∷◌, ◌++◌, true, false,
  ◌==◌, length, take, Bool-cases, arith, All, ◌⊎◌, if◌then◌else◌, take-append_le, length-append,
}
use pc_trade.Fuse.Path.{name_eq, name_eq_iff}
use pc_trade.Proxy.Response.{Parser, ends_with, empty_line}

-- The first line of a text, with its newline if it has one, and what is after it
unfoldable pub read_line : List ℕ → List ℕ × List ℕ
read_line [] = ([], [])
read_line (c ∷ rest) =
    let (line, left) = read_line rest in if c == 10 then (c ∷ [], rest) else (c ∷ line, left)

abbrev pub HasNoNewline : List ℕ → Type 0
HasNoNewline text = All (λ c. c ≢ 10) text

-- What `read_line` of tokio promises: the bytes up to and with the next newline, or all to the end
pub record ReadsLines (p : Parser) : Type 0 where
  pub line :
      (l rest : List ℕ) → HasNoNewline l → p.read_line (l ++ (10 ∷ rest)) ≡ (l ++ (10 ∷ []), rest)
  pub last : (l : List ℕ) → HasNoNewline l → p.read_line l ≡ (l, [])

pub read_line_newline :
    (l rest : List ℕ) → HasNoNewline l → read_line (l ++ (10 ∷ rest)) ≡ (l ++ (10 ∷ []), rest)
unfolding read_line
read_line_newline [] rest h = refl
read_line_newline (c ∷ l) rest (ne, h) =
    let other : c == 10 ≡ false = ground arith in rw (other, read_line_newline l rest h) refl

pub read_line_last : (l : List ℕ) → HasNoNewline l → read_line l ≡ (l, [])
unfolding read_line
read_line_last [] h = refl
read_line_last (c ∷ l) (ne, h) =
    let other : c == 10 ≡ false = ground arith in rw (other, read_line_last l h) refl

-- A text is one line without a newline, or it begins with a line.
line-cases :
    (s : List ℕ)
    → HasNoNewline s ⊎ ((l : List ℕ) × (rest : List ℕ) × HasNoNewline l × (s ≡ l ++ (10 ∷ rest)))
line-cases [] = inl tt
line-cases (c ∷ s) = elim (Bool-cases (c == 10)) [
  | inl e ↦ let same : c ≡ 10 = ground arith in inr ([], s, tt, ap (λ t. t ∷ s) same)
  | inr e ↦
      let other : c ≢ 10 = ground arith in
      elim (line-cases s) [
        | inl plain ↦ inl (other, plain)
        | inr (l, rest, plain, same) ↦ inr (c ∷ l, rest, (other, plain), ap (λ t. c ∷ t) same)
      ]
]

pub read_line_lem : (p : Parser) → ReadsLines p → (s : List ℕ) → p.read_line s ≡ read_line s
read_line_lem p laws s = elim (line-cases s) [
  | inl plain ↦ laws.last s plain ∙ sym (read_line_last s plain)
  | inr (l, rest, plain, same) ↦
      ap p.read_line same
      ∙ laws.line l rest plain
      ∙ sym (ap read_line same ∙ read_line_newline l rest plain)
]

abbrev pub last_byte : List ℕ → ℕ
last_byte [] = 0
last_byte (c ∷ []) = c
last_byte (c ∷ d ∷ rest) = last_byte (d ∷ rest)

last_byte_cons : (c : ℕ) (xs : List ℕ) → length xs ≢ 0 → last_byte (c ∷ xs) ≡ last_byte xs
last_byte_cons c [] h = absurd (h refl)
last_byte_cons c (d ∷ xs) h = refl

pub last_byte-append : (xs ys : List ℕ) → length ys ≢ 0 → last_byte (xs ++ ys) ≡ last_byte ys
last_byte-append [] ys h = refl
last_byte-append (x ∷ xs) ys h =
    last_byte_cons x (xs ++ ys) (omega (arith, length-append xs ys)) ∙ last_byte-append xs ys h

pub ends_with_newline : (t : List ℕ) → ends_with t empty_line ≡ true → last_byte t ≡ 10
unfolding ends_with
ends_with_newline [] e = cc
ends_with_newline (c ∷ []) e = elim (Bool-cases (c == 13)) [
  | inl same ↦ let none : false ≡ true = rw same at e in cc
  | inr other ↦ let none : false ≡ true = rw other at e in cc
]
ends_with_newline (c ∷ d ∷ rest) e = elim (Bool-cases (name_eq (c ∷ d ∷ rest) empty_line)) [
  | inl same ↦ ap last_byte ((name_eq_iff (c ∷ d ∷ rest) empty_line).0 same)
  | inr other ↦
      let later : ends_with (d ∷ rest) empty_line ≡ true = rw other at e in
      ends_with_newline (d ∷ rest) later
]

pub append-read_line : (s : List ℕ) → (read_line s).0 ++ (read_line s).1 ≡ s
unfolding read_line
append-read_line [] = refl
append-read_line (c ∷ rest) = elim (Bool-cases (c == 10)) [
  | inl e ↦ rw e refl
  | inr e ↦ rw e (ap (λ t. c ∷ t) (append-read_line rest))
]

pub read_line_present : (c : ℕ) (rest : List ℕ) → length (read_line (c ∷ rest)).0 ≢ 0
unfolding read_line
read_line_present c rest = elim (Bool-cases (c == 10)) [
  | inl e ↦ rw e (omega arith)
  | inr e ↦ rw e (omega arith)
]

inner_cons :
    (c : ℕ) (line : List ℕ) (m : ℕ)
    → c ≢ 10
    → ((k : ℕ) → suc k < length line → last_byte (take (suc k) line) ≢ 10)
    → m < length line
    → last_byte (take (suc m) (c ∷ line)) ≢ 10
inner_cons c line zero ne inner h = ne
inner_cons c [] (suc m) ne inner h = absurd (omega arith)
inner_cons c (d ∷ line) (suc m) ne inner h = inner m (omega arith)

-- Within a line there is no newline before its end.
pub read_line_inner :
    (s : List ℕ) (m : ℕ)
    → suc m < length (read_line s).0
    → last_byte (take (suc m) (read_line s).0) ≢ 10
unfolding read_line
read_line_inner [] m h = absurd (omega arith)
read_line_inner (c ∷ rest) m h = elim (Bool-cases (c == 10)) [
  | inl e ↦ let none : suc m < 1 = rw e at h in absurd (omega arith)
  | inr e ↦
      let more : suc m < suc (length (read_line rest).0) = rw e at h in
      let other : c ≢ 10 = ground arith in
      rw e (inner_cons c (read_line rest).0 m other (read_line_inner rest) (omega arith))
]

-- A prefix that ends within a line
pub take_within :
    (xs line rest : List ℕ) (n m : ℕ)
    → n ≡ length xs + m
    → m ≤ length line
    → take n (xs ++ (line ++ rest)) ≡ xs ++ take m line
take_within [] line rest n m e h =
    let same : n ≡ m = omega arith in
    ap (λ k. take k (line ++ rest)) same ∙ take-append_le m line rest h
take_within (x ∷ xs) line rest zero m e h = absurd (omega arith)
take_within (x ∷ xs) line rest (suc n) m e h =
    ap (λ t. x ∷ t) (take_within xs line rest n m (omega arith) h)
