-- ===== src/Portable/Tests.antt =====
-- A package of libs/portable with one file.
use pc_trade.Prelude.{ℕ, ◌≡◌, refl, List, [], ◌∷◌, some, ok, err, replicate, arith}
use pc_trade.PasswordSecurity.{codes}
use pc_trade.Portable.{BinaryData, panic, read, pack, write_to_file}
use pc_trade.Portable.RoundTrip.{read-pack}

-- Bytes of ASCII, which `from_utf8_lossy` keeps.
abbrev as_text : List ℕ → List ℕ
as_text bytes = bytes

abbrev file : BinaryData
file = record { md5_code = replicate 32 48; raw = 1 ∷ 2 ∷ 3 ∷ []; path = codes "./a.exe" }

abbrev exe : List ℕ
exe = codes "./a.exe"

read-pack_example : read as_text (pack (file ∷ []) exe) ≡ ok (file ∷ [], exe)
read-pack_example =
    read-pack as_text (file ∷ []) exe (record { is_text = refl; only = λ bytes e. e })
      (
        record {
          path_length = omega arith;
          path_text = refl;
          raw_length = omega arith;
          digest = refl;
        },
        tt,
      )
      refl

-- An empty package has no identifier.
empty : read as_text [] ≡ err panic
unfolding read
empty = refl

-- A file with another digest is written again.
written :
    (write_to_file as_text (λ bytes. 1 ∷ []) (λ bytes. bytes) file (some (7 ∷ [])) ≡ 1 ∷ 2 ∷ 3 ∷ [])
    × (write_to_file as_text (λ bytes. replicate 32 48) (λ bytes. bytes) file (some (7 ∷ []))
        ≡ 7 ∷ [])
unfolding write_to_file
written = (refl, refl)
