-- ===== src/Serve/Tests.antt =====
-- A file of five bytes, served by unix/mod.rs, and an offset whose bit 31 is set.
use pc_trade.Prelude.{
  ℕ, ◌-◌, ◌/◌, ◌%◌, ◌^◌, ◌≤◌, ◌<◌, ◌≡◌, min, refl, List, [], ◌∷◌, some, false, err, ok, arith, take,
  drop,
}
use pc_trade.Cliprdr.{error, panic, invalid_request}
use pc_trade.LocalFile.Handle.{OpenFile, Synced, read_exact_at}
use pc_trade.LocalFile.Reads.{read_exact_at_lem}
use pc_trade.Serve.{range_of, served, refusal, answer, serve_file_contents, offset_of}
use pc_trade.Serve.Ranges.{offset_of_lem}
use pc_trade.Serve.Replies.{serve_range_lem}

abbrev five : List ℕ
five = 1 ∷ 2 ∷ 3 ∷ 4 ∷ 5 ∷ []

-- two bytes were read
abbrev halfway : OpenFile
halfway = record { size = 5; is_dir = false; content = some five; handle = some 2; offset = 2 }

serve_range_lem_example :
    (3 ≤ halfway.size
      → (serve_file_contents (halfway ∷ []) (range_of 9 0 3 10)).sent
        ≡ answer 9 (take (min 10 (5 - 3)) (drop 3 five)))
    × (halfway.size < 3
        → serve_file_contents (halfway ∷ []) (range_of 9 0 3 10)
          ≡ served (refusal 9) (err (error invalid_request)) (halfway ∷ []))
serve_range_lem_example =
    serve_range_lem (halfway ∷ []) 9 0 3 10 halfway five refl refl refl refl refl (omega arith)
      (omega arith)

served_two : (serve_file_contents (halfway ∷ []) (range_of 9 0 3 10)).sent ≡ answer 9 (4 ∷ 5 ∷ [])
unfolding serve_file_contents
served_two = refl

read_exact_at_lem_example :
    ((read_exact_at halfway 2 1).0 ≡ ok (take 2 (drop 1 five)))
    × Synced (read_exact_at halfway 2 1).1
read_exact_at_lem_example = read_exact_at_lem halfway five 2 1 refl refl refl (omega arith)

abbrev three_gib : ℕ
three_gib = 3221225472

offset_of_lem_example :
    (three_gib % 2 ^ 32 < 2 ^ 31
      → offset_of (three_gib % 2 ^ 32) (three_gib / 2 ^ 32 % 2 ^ 32) ≡ three_gib)
    × (2 ^ 31 ≤ three_gib % 2 ^ 32
        → three_gib < offset_of (three_gib % 2 ^ 32) (three_gib / 2 ^ 32 % 2 ^ 32))
offset_of_lem_example = offset_of_lem three_gib (omega arith)

-- A count of -1, as it wraps, does not end behind the file, and there is no buffer for it.
too_many : (serve_file_contents (halfway ∷ []) (range_of 9 0 3 (2 ^ 64 - 1))).result ≡ err panic
unfolding serve_file_contents
too_many = refl
