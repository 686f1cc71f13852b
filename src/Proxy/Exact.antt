-- ===== src/Proxy/Exact.antt =====
-- What `get_response` of libs/hbb_common/src/proxy.rs takes from the stream.
use mathlib.Core.Path.{subst, sym}
use pc_trade.Prelude.{
  ℕ, zero, suc, ◌+◌, ◌-◌, ◌≤◌, ◌<◌, ◌≡◌, ◌≢◌, refl, ap, ◌∙◌, inl, inr, List, [], ◌∷◌, ◌++◌,
  append_assoc, append-nil, Option, some, true, false, ◌==◌, ltb, length, take, Bool-cases, arith,
  length-take, take-append, length-append, Result, ok, err,
}
use pc_trade.Proxy.{ProxyError, io_error, end_of_file}
use pc_trade.Proxy.{maximum_response_header_length_exceeded}
use pc_trade.Proxy.Response.{
  Parser, taken, get_response, ends_with, empty_line, maximum_response_header_length,
}
use pc_trade.Proxy.Head.{
  read_line, read_line_lem, ReadsLines, last_byte-append, ends_with_newline, append-read_line,
  read_line_present, read_line_inner, take_within,
}

-- No prefix of fewer than `n` bytes ends with an empty line.
abbrev pub IsOpen : List ℕ → ℕ → Type 0
IsOpen text n = (m : ℕ) → m < n → ends_with (take m text) empty_line ≡ false

-- What the result says of the bytes of the stream
abbrev pub Outcome : Parser → List ℕ → Result ProxyError (List ℕ × List ℕ) → Type 0
Outcome p text (ok (head, rest)) =
    (text ≡ head ++ rest)
    × (ends_with head empty_line ≡ true)
    × (length head ≤ maximum_response_header_length)
    × IsOpen text (length head)
Outcome p text (err end_of_file) = IsOpen text (suc (length text))
Outcome p text (err (maximum_response_header_length_exceeded n)) =
    (maximum_response_header_length < n) × (n ≤ length text) × IsOpen text n
Outcome p text (err (io_error code)) =
    (before : List ℕ) × (line : List ℕ) × (after : List ℕ) × (text ≡ before ++ (line ++ after))
    × (p.is_utf8 line ≡ false)
    × IsOpen text (length (before ++ line))
Outcome p text (err e) = ⊥

-- A line that is read leaves open what ends before its end.
pub within-IsOpen :
    (seen s : List ℕ)
    → IsOpen (seen ++ s) (suc (length seen))
    → IsOpen (seen ++ s) (length (seen ++ (read_line s).0))
within-IsOpen seen s before n h = elim (Bool-cases (ltb (length seen) n)) [
  | inr early ↦ before n (ground arith)
  | inl late ↦ later n (n - suc (length seen)) (ground arith) h
]
  where
    inner :
        (m : ℕ)
        → suc m < length (read_line s).0
        → ends_with (seen ++ take (suc m) (read_line s).0) empty_line ≡ false
    inner m h = elim (Bool-cases (ends_with (seen ++ take (suc m) (read_line s).0) empty_line)) [
      | inr open_it ↦ open_it
      | inl closed ↦
          let size = length-take (suc m) (read_line s).0 in
          let present : length (take (suc m) (read_line s).0) ≢ 0 = omega arith in
          absurd (
            read_line_inner s m h (
              sym (last_byte-append seen (take (suc m) (read_line s).0) present)
              ∙ ends_with_newline (seen ++ take (suc m) (read_line s).0) closed))
    ]

    later :
        (n m : ℕ)
        → n ≡ length seen + suc m
        → n < length (seen ++ (read_line s).0)
        → ends_with (take n (seen ++ s)) empty_line ≡ false
    later n m e h =
        let size = length-append seen (read_line s).0 in
        let within : take n (seen ++ s) ≡ seen ++ take (suc m) (read_line s).0 =
          ap (λ t. take n (seen ++ t)) (sym (append-read_line s))
          ∙ take_within seen (read_line s).0 (read_line s).1 n (suc m) e (omega arith) in
        ap (λ t. ends_with t empty_line) within ∙ inner m (omega arith)

-- The next bound, where what was read so far is open itself
pub next-IsOpen :
    (text seen rest : List ℕ)
    → text ≡ seen ++ rest
    → ends_with seen empty_line ≡ false
    → IsOpen text (length seen)
    → IsOpen text (suc (length seen))
next-IsOpen text seen rest e open_it before n h = elim (Bool-cases (ltb n (length seen))) [
  | inl early ↦ before n (ground arith)
  | inr late ↦
      let same : n ≡ length seen = ground arith in
      ap (λ t. ends_with t empty_line) (ap (take n) e ∙ take-append n seen rest same) ∙ open_it
]

pub start-IsOpen : (s : List ℕ) → IsOpen s 1
unfolding ends_with
start-IsOpen s zero h = refl
start-IsOpen s (suc m) h = absurd (omega arith)

module _ (p : Parser) (laws : ReadsLines p) where
  abbrev Answers : List ℕ → Option (Result ProxyError (List ℕ × List ℕ)) → Type 0
  Answers text answer =
      (r : Result ProxyError (List ℕ × List ℕ)) × (answer ≡ some r) × Outcome p text r

  ended :
      (text seen : List ℕ) (later : Option (Result ProxyError (List ℕ × List ℕ)))
      → text ≡ seen ++ []
      → IsOpen text (suc (length seen))
      → Answers text (taken p seen [] [] later)
  ended text seen later e before =
      let weaker : IsOpen text (length (seen ++ [])) =
        λ m h. before m (omega (arith, h, length-append seen [])) in
      elim (Bool-cases (p.is_utf8 [])) [
        | inl valid ↦
            let same : text ≡ seen = e ∙ append-nil seen in
            (
              err end_of_file,
              rw valid refl,
              subst (λ (t : List ℕ). IsOpen text (suc (length t))) (sym same) before,
            )
        | inr invalid ↦
            (err (io_error p.invalid_data), rw invalid refl, (seen, [], [], e, invalid, weaker))
      ]

  -- A line is read, and the rest is read by the same rule.
  line_read :
      (text seen line rest : List ℕ) (later : Option (Result ProxyError (List ℕ × List ℕ)))
      → text ≡ seen ++ (line ++ rest)
      → length line ≢ 0
      → IsOpen text (length (seen ++ line))
      → (IsOpen text (suc (length (seen ++ line))) → Answers text later)
      → Answers text (taken p seen line rest later)
  line_read text seen line rest later e present until go =
      let all : text ≡ (seen ++ line) ++ rest = e ∙ sym (append_assoc seen line rest) in
      let size = ap length all ∙ length-append (seen ++ line) rest in
      let full : length line == 0 ≡ false = ground arith in
      elim (Bool-cases (p.is_utf8 line)) [
        | inr invalid ↦
            (err (io_error p.invalid_data), rw invalid refl, (seen, line, rest, e, invalid, until))
        | inl valid ↦
            elim (Bool-cases (ltb maximum_response_header_length (length (seen ++ line)))) [
              | inl long ↦ (
                err (maximum_response_header_length_exceeded (length (seen ++ line))),
                rw (valid, full, long) refl,
                (ground arith, omega arith, until),
              )
              | inr short ↦ elim (Bool-cases (ends_with (seen ++ line) empty_line)) [
                | inl closed ↦ (
                  ok (seen ++ line, rest),
                  rw (valid, full, short, closed) refl,
                  (all, closed, ground arith, until),
                )
                | inr open_it ↦
                    let (r, answer, outcome) =
                      go (next-IsOpen text (seen ++ line) rest all open_it until) in
                    (r, rw (valid, full, short, open_it) answer, outcome)
              ]
            ]
      ]

  -- What is done with the first line of the stream, by the rule of lines
  first_line :
      (fuel : ℕ) (text seen s : List ℕ)
      → Answers text (
          taken p seen
            (read_line s).0
            (read_line s).1
            (get_response p fuel (seen ++ (read_line s).0) (read_line s).1))
      → Answers text (get_response p (suc fuel) seen s)
  unfolding get_response
  first_line fuel text seen s h =
      subst
        (λ (l : List ℕ × List ℕ).
          Answers text (taken p seen l.0 l.1 (get_response p fuel (seen ++ l.0) l.1)))
        (sym (read_line_lem p laws s)) h

  reads :
      (fuel : ℕ) (text seen s : List ℕ)
      → text ≡ seen ++ s
      → length s < fuel
      → IsOpen text (suc (length seen))
      → Answers text (get_response p fuel seen s)
  unfolding read_line
  reads zero text seen s e h before = absurd (omega arith)
  reads (suc fuel) text seen [] e h before =
      first_line fuel text seen [] (ended text seen (get_response p fuel (seen ++ []) []) e before)
  reads (suc fuel) text seen (c ∷ s) e h before =
      let line = (read_line (c ∷ s)).0 in
      let rest = (read_line (c ∷ s)).1 in
      let size = length-append line rest in
      let sum = ap length (append-read_line (c ∷ s)) in
      let present = read_line_present c s in
      let parts : text ≡ seen ++ (line ++ rest) =
        e ∙ ap (λ t. seen ++ t) (sym (append-read_line (c ∷ s))) in
      let until : IsOpen text (length (seen ++ line)) =
        subst (λ (t : List ℕ). IsOpen t (length (seen ++ line))) (sym e)
          (within-IsOpen seen (c ∷ s)
            (subst (λ (t : List ℕ). IsOpen t (suc (length seen))) e before)) in
      first_line fuel text seen (c ∷ s) (
        line_read text seen line rest (get_response p fuel (seen ++ line) rest) parts present until
          (reads fuel text (seen ++ line) rest (parts ∙ sym (append_assoc seen line rest))
            (omega arith)))

  -- A fuel above the length of the stream is enough: the reading of the response ends. It answers
  -- the bytes up to the first place where an empty line ends, at most 4096 of them, and leaves
  -- exactly those after them; or the end of the file, and the stream has no such place; or too long
  -- a response, and the first such place is not within the 4096 bytes; or a line up
  -- to there that is not UTF-8. (Where `read_line` reads lines.)
  pub get_response_lem :
      (fuel : ℕ) (s : List ℕ)
      → length s < fuel
      → (r : Result ProxyError (List ℕ × List ℕ)) × (get_response p fuel [] s ≡ some r)
        × Outcome p s r
  get_response_lem fuel s h = reads fuel s [] s refl h (start-IsOpen s)
