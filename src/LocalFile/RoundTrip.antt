-- ===== src/LocalFile/RoundTrip.antt =====
-- What local_file.rs writes of a file, and what `parse_file_descriptor` of fuse.rs reads of it.
use pc_trade.Cliprdr.{CliprdrError}
use pc_trade.Prelude.{
  inl, inr, Bool-cases, ==_iff, ℕ, ◌+◌, ◌-◌, ◌*◌, ◌/◌, ◌%◌, ◌^◌, ◌≤◌, ◌<◌, ◌≡◌, refl, ap, sym, List,
  [], ◌∷◌, ◌++◌, Option, some, Bool, true, false, ◌&&◌, Result, ok, arith, ltb, ◌==◌, if◌then◌else◌,
  All, map, length, replicate, take, drop, length-replicate, length-append, take-append,
  drop-append,
}
use pc_trade.Prelude.Bytes.{le_bytes, from_le, from_le-le_bytes, length-le_bytes}
use pc_trade.Fuse.Descriptor.{
  parse_file_descriptor, parse_file_descriptors, parse_many, modified_of, name_of, has_flag,
  descriptor_len,
}
use pc_trade.Fuse.Node.{file, directory, FileDescription}
use pc_trade.LocalFile.{
  LocalFile, descriptor, as_bin, put_files, build_file_list_pdu, fd_flags, file_attributes,
  win32_time,
}
use pc_trade.LocalFile.Attributes.{attributes, file_attributes_fit}
use pc_trade.LocalFile.Names.{IsPlain, name_of-zeros}

-- Times are kept in units of 100 ns.
time_back : (t : ℕ) → t < 2 ^ 64 → modified_of fd_flags (win32_time t) ≡ t / 100 * 100
unfolding modified_of win32_time
time_back t h = ground arith

-- What the peer learns of a file.
abbrev pub described : ℕ → LocalFile → FileDescription
described conn_id f =
    let t = f.last_write_time / 100 * 100 in
    record {
      conn_id = conn_id;
      name = f.path;
      kind = if f.is_dir then directory else file;
      atime = t;
      last_modified = t;
      last_metadata_changed = t;
      creation_time = t;
      size = f.size;
      perm = f.perm % 2 ^ 16;
    }

win32_time_lt : (t : ℕ) → win32_time t < 256 ^ 8
unfolding win32_time
win32_time_lt t = omega arith

take_name : (a b rest : List ℕ) → 520 ≡ length a + length b → take 520 ((a ++ b) ++ rest) ≡ a ++ b
take_name a b rest e = take-append 520 (a ++ b) rest (omega (arith, length-append a b))

size_back : (n : ℕ) → n < 2 ^ 64 → n / 2 ^ 32 % 2 ^ 32 * 2 ^ 32 + n % 2 ^ 32 ≡ n
size_back n h = omega arith

-- What the parser makes of the fields that it has read.
unfoldable made : (text : List ℕ) (conn_id attributes perm time high low : ℕ) → FileDescription
made text conn_id attributes perm time high low = record {
  conn_id = conn_id;
  name = name_of text;
  kind = if has_flag attributes 0x10 then directory else file;
  atime = modified_of fd_flags time;
  last_modified = modified_of fd_flags time;
  last_metadata_changed = modified_of fd_flags time;
  creation_time = modified_of fd_flags time;
  size = high * 2 ^ 32 + low;
  perm = perm % 2 ^ 16;
}

not_above : (n : ℕ) → n ≤ 520 → ltb 520 n ≡ false
not_above n h = ground arith

-- The fields are read as they were written.
made-fields :
    (f : LocalFile) (text : List ℕ) (conn_id : ℕ)
    → f.size < 2 ^ 64
    → f.perm < 2 ^ 32
    → f.last_write_time < 2 ^ 64
    → name_of text ≡ f.path
    → made text conn_id
        (from_le (le_bytes 4 (file_attributes f)))
        (from_le (le_bytes 4 f.perm))
        (from_le (le_bytes 8 (win32_time f.last_write_time)))
        (from_le (le_bytes 4 (f.size / 2 ^ 32 % 2 ^ 32)))
        (from_le (le_bytes 4 (f.size % 2 ^ 32)))
      ≡ described conn_id f
unfolding made
made-fields f text conn_id size perm time named =
    let (bit, small) = file_attributes_fit f in
    rw
      (
        from_le-le_bytes 4 (file_attributes f) (omega arith),
        from_le-le_bytes 4 f.perm (omega arith),
        from_le-le_bytes 8 (win32_time f.last_write_time) (win32_time_lt f.last_write_time),
        from_le-le_bytes 4 (f.size / 2 ^ 32 % 2 ^ 32) (omega arith),
        from_le-le_bytes 4 (f.size % 2 ^ 32) (omega arith),
        bit,
        named,
        time_back f.last_write_time time,
        size_back f.size size,
      )
      refl

module _ (encode_utf16 : List ℕ → List ℕ) (decode_utf16 : List ℕ → Option (List ℕ))
    (conn_id : ℕ) where
  -- The file's fields are in range, its path has no `\\` and no NUL, and its name of at most 520
  -- bytes is decoded to the path and the padding.
  pub record Readable (f : LocalFile) : Type 0 where
    pub size_lt : f.size < 2 ^ 64
    pub perm_lt : f.perm < 2 ^ 32
    pub time_lt : f.last_write_time < 2 ^ 64
    pub short : length (encode_utf16 f.path) ≤ 520
    pub plain : All IsPlain f.path
    pub zeros : ℕ
    pub decoded :
        decode_utf16 (encode_utf16 f.path ++ replicate (520 - length (encode_utf16 f.path)) 0)
        ≡ some (f.path ++ replicate zeros 0)

  -- The fields are read as they were written, whatever follows.
  parse-descriptor :
      (f : LocalFile) (rest : List ℕ)
      → Readable f
      → parse_file_descriptor decode_utf16 (descriptor f (encode_utf16 f.path) ++ rest) conn_id
        ≡ ok (described conn_id f)
  unfolding parse_file_descriptor le_bytes from_le made
  parse-descriptor f rest r =
      let name = encode_utf16 f.path in
      let text = f.path ++ replicate r.zeros 0 in
      let cut : take 520 (drop 72 (descriptor f name ++ rest))
          ≡ name ++ replicate (520 - length name) 0 =
        take_name name (replicate (520 - length name) 0) rest (fills (length name) r.short) in
      rw (cut, r.decoded, parse_file_descriptor)
        (ap ok (
          made-fields f text conn_id r.size_lt r.perm_lt r.time_lt
            (name_of-zeros f.path r.zeros r.plain)))
    where
      fills : (n : ℕ) → n ≤ 520 → 520 ≡ n + length (replicate {A = ℕ} (520 - n) 0)
      fills n h = omega (arith, length-replicate {A = ℕ} (520 - n) 0)

  length-descriptor :
      (f : LocalFile) (name : List ℕ)
      → length name ≤ 520
      → length (descriptor f name) ≡ descriptor_len
  unfolding le_bytes
  length-descriptor f name short = omega (
    arith,
    length-append name (replicate (520 - length name) 0),
    length-replicate {A = ℕ} (520 - length name) 0,
  )

  -- The list without its count.
  parse_many-put_files :
      (files : List LocalFile)
      → All Readable files
      → (body : List ℕ) × (put_files encode_utf16 files ≡ some body)
        × (length body ≡ descriptor_len * length files)
        × (parse_many decode_utf16 (length files) body conn_id ≡ ok (map (described conn_id) files))
  unfolding put_files as_bin parse_many
  parse_many-put_files [] all = ([], refl, omega arith, refl)
  parse_many-put_files (f ∷ fs) (r, rs) =
      let (body, put, len, parsed) = parse_many-put_files fs rs in
      let name = encode_utf16 f.path in
      let fits : ltb 520 (length name) ≡ false = not_above (length name) r.short in
      let size = length-descriptor f name r.short in
      (
        descriptor f name ++ body,
        rw (fits, put, put_files, as_bin) refl,
        omega (arith, length-append (descriptor f name) body),
        rw
            (
              parse-descriptor f body r,
              drop-append descriptor_len (descriptor f name) body (sym size),
              parsed,
            )
            refl,
      )

  none_left :
      (files : List LocalFile)
      → length files ≡ 0
      → ◌≡◌ {A = Result CliprdrError (List FileDescription)}
          (ok [])
          (ok (map (described conn_id) files))
  none_left [] e = refl
  none_left (f ∷ fs) e = absurd (omega arith)

  read_list :
      (files : List LocalFile) (body : List ℕ)
      → length files < 2 ^ 32
      → length body ≡ descriptor_len * length files
      → parse_many decode_utf16 (length files) body conn_id ≡ ok (map (described conn_id) files)
      → parse_file_descriptors decode_utf16 (le_bytes 4 (length files) ++ body) conn_id
        ≡ ok (map (described conn_id) files)
  unfolding parse_file_descriptors
  read_list files body few len parsed =
      let n = length files in
      let four = length-le_bytes 4 n in
      let long : ltb (length (le_bytes 4 n ++ body)) 4 ≡ false =
        not_short (length (le_bytes 4 n ++ body))
          (omega (arith, length-append (le_bytes 4 n) body)) in
      let fits : (length body == descriptor_len * n) ≡ true =
        (==_iff (length body) (descriptor_len * n)).1 len in
      rw
        (
          long,
          take-append 4 (le_bytes 4 n) body (sym four),
          drop-append 4 (le_bytes 4 n) body (sym four),
          from_le-le_bytes 4 n (omega arith),
          fits,
        )
        (elim (Bool-cases ((length body == 0) && (n == 0))) [
          | inl empty ↦ rw empty (none_left files (zero_of (length body == 0) n empty))
          | inr filled ↦ rw filled parsed
        ])
    where
      not_short : (n : ℕ) → 4 ≤ n → ltb n 4 ≡ false
      not_short n h = ground arith

      zero_of : (b : Bool) (n : ℕ) → (b && (n == 0)) ≡ true → n ≡ 0
      zero_of b n e = ground arith

  -- The list of files that one peer sends is read by the other: it gives the files in their order,
  -- each with its path, kind and size, the low 16 bits of its mode, and its time rounded down to
  -- 100 ns, if there are fewer than 2 ^ 32 readable files.
  pub parse_file_descriptors-build :
      (files : List LocalFile)
      → All Readable files
      → length files < 2 ^ 32
      → (pdu : List ℕ) × (build_file_list_pdu encode_utf16 files ≡ some pdu)
        × (parse_file_descriptors decode_utf16 pdu conn_id ≡ ok (map (described conn_id) files))
  unfolding build_file_list_pdu parse_file_descriptors
  parse_file_descriptors-build files all few =
      let (body, put, len, parsed) = parse_many-put_files files all in
      let count : length files % 2 ^ 32 ≡ length files = omega arith in
      (
        le_bytes 4 (length files) ++ body,
        rw (put, count, build_file_list_pdu) refl,
        read_list files body few len parsed,
      )
