-- ===== src/Context/Formats.antt =====
-- The answer of unix/mod.rs to a list of formats.
use pc_trade.Prelude.{
  ℕ, ◌≡◌, ◌≢◌, ◌⊎◌, refl, err, arith, ==_iff, sym, List, [], ◌∷◌, Option, none, some, true, false,
  ok, ◌==◌, ◌||◌, if◌then◌else◌, length, Bool-cases, inl, inr,
}
use pc_trade.Cliprdr.{format_data_request, error, invalid_request}
use pc_trade.Fuse.Path.{name_eq, name_eq_iff}
use pc_trade.Context.{
  Context, Outcome, FormatMap, file_descriptorw_name, file_contents_name, get_local_format,
  file_formats, id_of, ask_files, quiet, serve_format_list,
}

-- A name that the filter keeps has the same id after it.
id_of-file_formats :
    (formats : FormatMap) (name : List ℕ)
    → (name_eq name file_descriptorw_name || name_eq name file_contents_name) ≡ true
    → id_of (file_formats formats) name ≡ id_of formats name
unfolding file_formats
id_of-file_formats [] name kept = refl
id_of-file_formats ((id, n) ∷ rest) name kept =
    let later = id_of-file_formats rest name kept in
    elim (Bool-cases (name_eq n file_descriptorw_name || name_eq n file_contents_name)) [
      | inl known ↦ elim (Bool-cases (name_eq n name)) [
        | inl same ↦ rw (known, same) refl
        | inr other ↦ rw (known, other) later
      ]
      | inr unknown ↦ elim (Bool-cases (name_eq n name)) [
        | inl same ↦ clash n name ((name_eq_iff n name).0 same) kept unknown
        | inr other ↦ rw (unknown, other) later
      ]
    ]
  where
    clash :
        {A : Type 0} (n name : List ℕ)
        → n ≡ name
        → (name_eq name file_descriptorw_name || name_eq name file_contents_name) ≡ true
        → (name_eq n file_descriptorw_name || name_eq n file_contents_name) ≡ false
        → A
    clash n name e kept unknown = cc (kept, (rw e at unknown))

-- What a request for the files leaves: the list of files is asked for under `d`, and the map of
-- formats has the two new ids.
pub record Asks (c : Context) (formats : FormatMap) (out : Outcome) : Type 0 where
  pub d : ℕ
  pub k : ℕ
  pub descriptor : id_of formats file_descriptorw_name ≡ some d
  pub contents : id_of formats file_contents_name ≡ some k
  pub sent : out.sent ≡ format_data_request d ∷ []
  pub done : out.result ≡ ok tt
  pub map :
      (x : ℕ)
      → get_local_format out.context.formats x ≡ (
          if d == x
          then some file_descriptorw_name
          else if k == x
          then some file_contents_name
          else get_local_format c.formats x)

-- How a list of formats is answered: two of its formats have one of the two names of files, and the
-- list of files is asked for; there are two, but they have the same name, and the list is refused; or
-- there are not two, and nothing is done.
pub data Answered (c : Context) (formats : FormatMap) (out : Outcome) : Type 0 where
  asked : length (file_formats formats) ≡ 2 → Asks c formats out → Answered c formats out
  refused :
      length (file_formats formats) ≡ 2
      → (id_of formats file_contents_name ≡ none) ⊎ (id_of formats file_descriptorw_name ≡ none)
      → out ≡ quiet c (err (error invalid_request))
      → Answered c formats out
  left_out : length (file_formats formats) ≢ 2 → out ≡ quiet c (ok tt) → Answered c formats out

ask_files-Answered :
    (c : Context) (formats : FormatMap) (contents descriptor : Option ℕ)
    → length (file_formats formats) ≡ 2
    → id_of formats file_contents_name ≡ contents
    → id_of formats file_descriptorw_name ≡ descriptor
    → Answered c formats (ask_files c contents descriptor)
unfolding get_local_format
ask_files-Answered c formats none descriptor two e e' = refused two (inl e) refl
ask_files-Answered c formats (some k) none two e e' = refused two (inr e') refl
ask_files-Answered c formats (some k) (some d) two e e' = asked two (record {
  d = d;
  k = k;
  descriptor = e';
  contents = e;
  sent = refl;
  done = refl;
  map = λ x. refl;
})

-- The list of files is asked for, under the id that the peer gave to it, where exactly two formats of
-- the peer's list have one of the two names of files and both names are there; then the map of formats
-- has the peer's two ids, in place of what they stood for before. Where two have the same of these
-- names, the list is refused, and where there are not two, nothing is done; neither sends or changes
-- anything.
pub formats_lem :
    (c : Context) (formats : FormatMap) → Answered c formats (serve_format_list c formats)
unfolding serve_format_list
formats_lem c formats =
    let known = file_formats formats in
    elim (Bool-cases (length known == 2)) [
      | inr other ↦ rw other (left_out (differ (length known) other) refl)
      | inl two ↦ rw two (
          ask_files-Answered c formats (id_of known file_contents_name)
            (id_of known file_descriptorw_name) ((==_iff (length known) 2).0 two)
            (sym (id_of-file_formats formats file_contents_name refl))
            (sym (id_of-file_formats formats file_descriptorw_name refl)))
    ]
  where
    differ : (n : ℕ) → (n == 2) ≡ false → n ≢ 2
    differ n e = ground arith
