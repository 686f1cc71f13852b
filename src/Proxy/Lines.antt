-- ===== src/Proxy/Lines.antt =====
-- Heads that are made of lines, as libs/hbb_common/src/proxy.rs writes and reads them.
use mathlib.Core.Path.{subst, sym}
use pc_trade.Prelude.{
  ℕ, suc, ◌≤◌, ◌<◌, ◌≡◌, ◌≢◌, refl, ap, ◌∙◌, inl, inr, List, [], ◌∷◌, ◌++◌, append_assoc, true,
  false, ◌==◌, length, arith, length-append, All, All-append, Bool-cases,
}
use pc_trade.Fuse.Path.{name_eq, name_eq_iff}
use pc_trade.Proxy.{crlf}
use pc_trade.Proxy.Response.{ends_with, empty_line}
use pc_trade.Proxy.Response.{maximum_response_header_length}
use pc_trade.Proxy.Head.{read_line, read_line_newline, HasNoNewline, last_byte, last_byte-append}
use pc_trade.Proxy.Exact.{IsOpen, within-IsOpen, next-IsOpen, start-IsOpen}
use pc_trade.Proxy.Tunnel.{IsHead}
use pc_trade.Hosts.{contains}

-- A line of a head, without its end
abbrev pub IsLine : List ℕ → Type 0
IsLine text = HasNoNewline text × (length text ≢ 0)

pub without_newline : (t : List ℕ) → contains 10 t ≡ false → HasNoNewline t
without_newline [] e = tt
without_newline (c ∷ t) e = elim (Bool-cases (c == 10)) [
  | inl same ↦ let none : true ≡ false = rw same at e in absurd cc
  | inr other ↦
      let later : contains 10 t ≡ false = rw other at e in (ground arith, without_newline t later)
]

read_line-append :
    (line rest : List ℕ)
    → HasNoNewline line
    → read_line (line ++ (crlf ++ rest)) ≡ (line ++ crlf, rest)
read_line-append line rest h =
    let plain : HasNoNewline (line ++ (13 ∷ [])) =
      All-append (λ c. c ≢ 10) line (13 ∷ []) h (omega arith, tt) in
    ap read_line (sym (append_assoc line (13 ∷ []) (10 ∷ rest)))
    ∙ read_line_newline (line ++ (13 ∷ [])) rest plain
    ∙ ap (λ t. (t, rest)) (append_assoc line (13 ∷ []) (10 ∷ []))

last-HasNoNewline : (line : List ℕ) → HasNoNewline line → last_byte line ≢ 10
last-HasNoNewline [] h = omega arith
last-HasNoNewline (c ∷ []) h = h.0
last-HasNoNewline (c ∷ d ∷ line) h = last-HasNoNewline (d ∷ line) h.1

-- The end of a line closes the head only after another end of a line.
ends_with-crlf : (t : List ℕ) → ends_with (t ++ crlf) empty_line ≡ true → last_byte t ≡ 10
unfolding ends_with
ends_with-crlf [] e = cc
ends_with-crlf (c ∷ []) e = elim (Bool-cases (c == 13)) [
  | inl same ↦ let none : false ≡ true = rw same at e in cc
  | inr other ↦ let none : false ≡ true = rw other at e in cc
]
ends_with-crlf (c ∷ d ∷ t) e = elim (Bool-cases (name_eq (c ∷ d ∷ (t ++ crlf)) empty_line)) [
  | inl same ↦ second t ((name_eq_iff (c ∷ d ∷ (t ++ crlf)) empty_line).0 same)
  | inr other ↦
      let later : ends_with (d ∷ (t ++ crlf)) empty_line ≡ true = rw other at e in
      ends_with-crlf (d ∷ t) later
]
  where
    second :
        (t : List ℕ) → ◌≡◌ {A = List ℕ} (c ∷ d ∷ (t ++ crlf)) empty_line → last_byte (d ∷ t) ≡ 10
    second [] e = cc
    second (x ∷ t) e = absurd (omega (arith, ap length e, length-append t crlf))

ends_with-append : (t : List ℕ) → ends_with (t ++ empty_line) empty_line ≡ true
unfolding ends_with
ends_with-append [] = refl
ends_with-append (c ∷ t) = elim (Bool-cases (name_eq (c ∷ (t ++ empty_line)) empty_line)) [
  | inl e ↦ rw e refl
  | inr e ↦ rw e (ends_with-append t)
]

-- The lines, each with its end, and an empty line
abbrev pub head_of : List (List ℕ) → List ℕ
head_of [] = crlf
head_of (line ∷ lines) = line ++ (crlf ++ head_of lines)

-- One line more leaves the text open.
line-IsOpen :
    (seen line rest : List ℕ)
    → IsLine line
    → IsOpen (seen ++ (line ++ (crlf ++ rest))) (suc (length seen))
    → IsOpen (seen ++ (line ++ (crlf ++ rest))) (suc (length (seen ++ (line ++ crlf))))
line-IsOpen seen line rest (plain, present) before =
    let text = seen ++ (line ++ (crlf ++ rest)) in
    let read = read_line-append line rest plain in
    let until : IsOpen text (length (seen ++ (line ++ crlf))) =
      subst (λ (t : List ℕ). IsOpen text (length (seen ++ t))) (ap (λ t. t.0) read)
        (within-IsOpen seen (line ++ (crlf ++ rest)) before) in
    let parts : text ≡ (seen ++ (line ++ crlf)) ++ rest =
      ap (λ t. seen ++ t) (sym (append_assoc line crlf rest))
      ∙ sym (append_assoc seen (line ++ crlf) rest) in
    let assoc : seen ++ (line ++ crlf) ≡ (seen ++ line) ++ crlf =
      sym (append_assoc seen line crlf) in
    let open_it : ends_with (seen ++ (line ++ crlf)) empty_line ≡ false =
      elim (Bool-cases (ends_with (seen ++ (line ++ crlf)) empty_line)) [
        | inr later ↦ later
        | inl closed ↦
            let newline =
              ends_with-crlf (seen ++ line)
                (ap (λ t. ends_with t empty_line) (sym assoc) ∙ closed) in
            absurd
              (last-HasNoNewline line plain (sym (last_byte-append seen line present) ∙ newline))
      ] in
    next-IsOpen text (seen ++ (line ++ crlf)) rest parts open_it until

lines-IsOpen :
    (lines : List (List ℕ)) (seen : List ℕ)
    → All IsLine lines
    → IsOpen (seen ++ head_of lines) (suc (length seen))
    → IsOpen (seen ++ head_of lines) (length (seen ++ head_of lines))
unfolding read_line
lines-IsOpen [] seen h before = within-IsOpen seen crlf before
lines-IsOpen (line ∷ lines) seen (here, there) before =
    let text : (seen ++ (line ++ crlf)) ++ head_of lines ≡ seen ++ head_of (line ∷ lines) =
      append_assoc seen (line ++ crlf) (head_of lines)
      ∙ ap (λ t. seen ++ t) (append_assoc line crlf (head_of lines)) in
    let more = line-IsOpen seen line (head_of lines) here before in
    subst (λ (t : List ℕ). IsOpen t (length t)) text
      (lines-IsOpen lines (seen ++ (line ++ crlf)) there
        (subst (λ (t : List ℕ). IsOpen t (suc (length (seen ++ (line ++ crlf))))) (sym text) more))

head_of_closed :
    (line : List ℕ) (lines : List (List ℕ))
    → (t : List ℕ) × (head_of (line ∷ lines) ≡ t ++ empty_line)
head_of_closed line [] = (line, refl)
head_of_closed line (next ∷ lines) =
    let (t, e) = head_of_closed next lines in
    (
      line ++ (crlf ++ t),
      ap (λ s. line ++ (crlf ++ s)) e ∙ sym (append_assoc line (crlf ++ t) empty_line),
    )

-- Lines that are short together and are ASCII make a head.
pub head_of-IsHead :
    (line : List ℕ) (lines : List (List ℕ))
    → All IsLine (line ∷ lines)
    → length (head_of (line ∷ lines)) ≤ maximum_response_header_length
    → All (λ b. b < 128) (head_of (line ∷ lines))
    → IsHead (head_of (line ∷ lines))
head_of-IsHead line lines h short ascii =
    let (t, e) = head_of_closed line lines in
    record {
      closed = ap (λ s. ends_with s empty_line) e ∙ ends_with-append t;
      first = lines-IsOpen (line ∷ lines) [] h (start-IsOpen (head_of (line ∷ lines)));
      short = short;
      ascii = ascii;
    }
