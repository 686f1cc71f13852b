-- ===== src/Proxy/Response.antt =====
-- The response of an HTTP proxy, in libs/hbb_common/src/proxy.rs. The stream is the bytes that come
-- until its end. `read_line` of tokio, which gives a line and what is after it, `from_utf8`, its
-- test of that line, and `httparse` are the parameter `Parser`; an error of the system while reading is only the one of a line that is not UTF-8.
use pc_trade.Prelude.{
  ℕ, zero, suc, List, [], ◌∷◌, ◌++◌, Option, none, some, Bool, not, ◌==◌, ◌||◌, ltb, length,
  if◌then◌else◌, Result, ok, err, ◌>>=◌,
}
use pc_trade.Fuse.Path.{name_eq}
use pc_trade.Config.Options.{is_empty}
use pc_trade.Proxy.{
  ProxyError, io_error, end_of_file, no_http_code, http_code_200, http_parse_error,
}
use pc_trade.Proxy.{maximum_response_header_length_exceeded}

pub record Parser : Type 0 where
  pub is_utf8 : List ℕ → Bool
  pub invalid_data : ℕ
  pub read_line : List ℕ → List ℕ × List ℕ
  pub parse_code : List ℕ → Result ℕ (Option ℕ)

abbrev pub maximum_response_header_length : ℕ
maximum_response_header_length = 4096

unfoldable pub ends_with : List ℕ → List ℕ → Bool
ends_with [] suffix = is_empty suffix
ends_with (c ∷ rest) suffix = name_eq (c ∷ rest) suffix || ends_with rest suffix

abbrev pub empty_line : List ℕ
empty_line = 13 ∷ 10 ∷ 13 ∷ 10 ∷ []

module _ (p : Parser) where
  abbrev pub Answer : Type 0
  Answer = Option (Result ProxyError (List ℕ × List ℕ))

  -- What is done with a line that was read, where `later` is what the loop goes on with
  abbrev pub taken : (response line rest : List ℕ) → (later : Answer) → Answer
  taken response line rest later =
      if not (p.is_utf8 line)
      then some (err (io_error p.invalid_data))
      else if length line == 0
      then some (err end_of_file)
      else if ltb maximum_response_header_length (length (response ++ line))
      then some (err (maximum_response_header_length_exceeded (length (response ++ line))))
      else if ends_with (response ++ line) empty_line
      then some (ok (response ++ line, rest))
      else later

  -- The head of the response and the bytes after it; none where the fuel is used up.
  unfoldable pub get_response : (fuel : ℕ) → (response stream : List ℕ) → Answer
  unfolding ends_with
  get_response zero response stream = none
  get_response (suc fuel) response stream =
      let (line, rest) = p.read_line stream in
      taken response line rest (get_response fuel (response ++ line) rest)

  abbrev pub check_code : Option ℕ → Result ProxyError (Unit {0})
  check_code none = err no_http_code
  check_code (some code) = if code == 200 then ok tt else err (http_code_200 code)

  abbrev pub parsed : Result ℕ (Option ℕ) → Result ProxyError (Option ℕ)
  parsed (ok code) = ok code
  parsed (err e) = err (http_parse_error e)

  -- The code is checked, and the bytes after the head are left.
  abbrev pub checked_code : (rest : List ℕ) → Result ℕ (Option ℕ) → Result ProxyError (List ℕ)
  checked_code rest code = parsed code >>= check_code >>= λ u. ok rest

  abbrev pub checked : Answer → Option (Result ProxyError (List ℕ))
  checked none = none
  checked (some (err e)) = some (err e)
  checked (some (ok (head, rest))) = some (checked_code rest (p.parse_code head))

  -- The bytes that are left for the tunnel
  unfoldable pub recv_and_check_response :
      (fuel : ℕ) → (stream : List ℕ) → Option (Result ProxyError (List ℕ))
  unfolding get_response
  recv_and_check_response fuel stream = checked (get_response fuel [] stream)
