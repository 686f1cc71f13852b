-- ===== src/Fuse/Descriptor.antt =====
-- `parse_file_descriptor` and `parse_file_descriptors` of libs/clipboard/src/platform/fuse.rs. The
-- library `utf16string`, which reads a file's name, is the parameter `decode_utf16`.
use pc_trade.Prelude.{
  ℕ, zero, suc, ◌+◌, ◌-◌, ◌*◌, ◌%◌, ◌^◌, bit_and, List, [], ◌∷◌, Option, none, some, Bool, not,
  Result, ok, err, ◌>>=◌, ltb, leb, ◌==◌, ◌&&◌, if◌then◌else◌, length, take, drop,
}
use pc_trade.Prelude.Bytes.{from_le}
use pc_trade.Cliprdr.{CliprdrError, conversion_failure, invalid_request}
use pc_trade.Fuse.Node.{
  file, directory, FileDescription, perm_read, perm_rw, perm_self_ro, perm_rwx,
}

-- `LDAP_EPOCH_DELTA` of libs/clipboard/src/platform/mod.rs, in units of 100 ns
abbrev pub ldap_epoch_delta : ℕ
ldap_epoch_delta = 116444772610000000

abbrev pub descriptor_len : ℕ
descriptor_len = 592

-- the little-endian number in `len` bytes at `off`
abbrev pub field_at : List ℕ → ℕ → ℕ → ℕ
field_at bytes off len = from_le (take len (drop off bytes))

-- `flags & mask != 0`
abbrev pub has_flag : ℕ → ℕ → Bool
has_flag flags mask = not (bit_and flags mask == 0)

-- `str::replace` of one character by another
unfoldable pub replace : ℕ → ℕ → List ℕ → List ℕ
replace from to [] = []
replace from to (c ∷ cs) = (if c == from then to else c) ∷ replace from to cs

abbrev pub cons_unless : ℕ → ℕ → List ℕ → List ℕ
cons_unless c x [] = if x == c then [] else x ∷ []
cons_unless c x (y ∷ ys) = x ∷ y ∷ ys

-- `str::trim_end_matches` of one character
unfoldable pub trim_end_matches : ℕ → List ℕ → List ℕ
trim_end_matches c [] = []
trim_end_matches c (x ∷ xs) = cons_unless c x (trim_end_matches c xs)

unfoldable pub perm_of : (flags attributes perm : ℕ) → ℕ
perm_of flags attributes perm =
    if has_flag flags 0x08
    then perm
    else if attributes == 0x80
    then perm_rwx
    else if has_flag attributes 0x01
    then perm_read
    else if has_flag attributes 0x02
    then perm_self_ro
    else if has_flag attributes 0x10
    then perm_rwx
    else perm_rw

-- the time in nanoseconds; the product wraps at 64 bits
unfoldable pub modified_of : (flags last_write_time : ℕ) → ℕ
modified_of flags t =
    if has_flag flags 0x20 && leb ldap_epoch_delta t
    then (t - ldap_epoch_delta) * 100 % 2 ^ 64
    else 0

unfoldable pub name_of : List ℕ → List ℕ
unfolding replace trim_end_matches
name_of text = trim_end_matches 0 (replace b'\\' b'/' text)

module _ (decode_utf16 : List ℕ → Option (List ℕ)) where
  -- One descriptor, from the first 592 bytes.
  unfoldable pub parse_file_descriptor : List ℕ → ℕ → Result CliprdrError FileDescription
  unfolding perm_of modified_of name_of
  parse_file_descriptor bytes conn_id =
      let flags = field_at bytes 0 4 in
      let attributes = field_at bytes 36 4 in
      let modified = modified_of flags (field_at bytes 56 8) in
      elim (decode_utf16 (take 520 (drop 72 bytes))) [
        | none ↦ err conversion_failure
        | some text ↦
            if has_flag flags 0x04
            then ok (record {
              conn_id = conn_id;
              name = name_of text;
              kind = if has_flag attributes 0x10 then directory else file;
              atime = modified;
              last_modified = modified;
              last_metadata_changed = modified;
              creation_time = modified;
              size =
                  if has_flag flags 0x40
                  then field_at bytes 64 4 * 2 ^ 32 + field_at bytes 68 4
                  else 0;
              perm = perm_of flags attributes (field_at bytes 52 4 % 2 ^ 16);
            })
            else err invalid_request
      ]

  -- the loop over the count of descriptors
  unfoldable pub parse_many : ℕ → List ℕ → ℕ → Result CliprdrError (List FileDescription)
  parse_many zero bytes conn_id = ok []
  parse_many (suc n) bytes conn_id = parse_file_descriptor bytes conn_id >>= λ desc.
      parse_many n (drop descriptor_len bytes) conn_id >>= λ rest. ok (desc ∷ rest)

  unfoldable pub parse_file_descriptors : List ℕ → ℕ → Result CliprdrError (List FileDescription)
  unfolding parse_many
  parse_file_descriptors pdu conn_id =
      let count = from_le (take 4 pdu) in
      let rest = drop 4 pdu in
      if ltb (length pdu) 4
      then err invalid_request
      else if (length rest == 0) && (count == 0)
      then ok []
      else if length rest == descriptor_len * count
      then parse_many count rest conn_id
      else err invalid_request
