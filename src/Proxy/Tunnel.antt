-- ===== src/Proxy/Tunnel.antt =====
-- The way through an HTTP proxy, `http_connect` of libs/hbb_common/src/proxy.rs, and the frames that
-- follow on the same stream (libs/hbb_common/src/bytes_codec.rs).
use mathlib.Core.Path.{subst, sym}
use pc_trade.Prelude.{
  ℕ, suc, ◌≤◌, ◌<◌, ◌≡◌, refl, ap, ◌∙◌, inl, inr, List, [], ◌++◌, append_assoc, Option, none, some,
  true, false, length, take, drop, arith, take-append, drop-append, length-append, Result, ok, err,
  All, All-drop, All-take, Bool-cases, ltb, take-append_le,
}
use pc_trade.BytesCodec.{decode}
use pc_trade.BytesCodec as Codec
use pc_trade.BytesCodec.Stream.{Receiver, Reach, Fits, start, encode_all, stream_complete}
use pc_trade.Proxy.{
  ProxyError, Proxy, Outside, TargetAddr, io_error, target_parse_error, http_parse_error,
  end_of_file, url_bad_scheme, url_parse_scheme, no_http_code, http_code_200,
  address_resolution_failed, get_domain_and_port, make_request,
}
use pc_trade.Proxy.{maximum_response_header_length_exceeded}
use pc_trade.Proxy.Response.{
  Parser, get_response, ends_with, empty_line, maximum_response_header_length,
  recv_and_check_response, checked, checked_code,
}
use pc_trade.Proxy.Head.{ReadsLines}
use pc_trade.Proxy.Exact.{IsOpen, Outcome, get_response_lem}

-- What was sent, and the bytes that are left for the tunnel. `write` is the error of the system when
-- the request is written, if there is one; `fuel` is the one of the response.
module _ {Url Addr : Type 0} (o : Outside Url Addr) (p : Parser) where
  abbrev pub asked :
      Proxy Addr
      → (write : Option ℕ) → (fuel : ℕ) → (stream : List ℕ) → Result ProxyError (List ℕ × ℕ)
      → List ℕ × Option (Result ProxyError (List ℕ))
  asked proxy write fuel stream (err e) = ([], some (err e))
  asked proxy (some code) fuel stream (ok (domain, port)) = ([], some (err (io_error code)))
  asked proxy none fuel stream (ok (domain, port)) =
      (make_request o proxy domain port, recv_and_check_response p fuel stream)

  unfoldable pub http_connect :
      Proxy Addr
      → Result (List ℕ) (TargetAddr Addr)
      → (write : Option ℕ) → (fuel : ℕ) → (stream : List ℕ)
      → List ℕ × Option (Result ProxyError (List ℕ))
  unfolding get_domain_and_port make_request recv_and_check_response
  http_connect proxy target write fuel stream =
      asked proxy write fuel stream (get_domain_and_port o target)

-- A head: at most 4096 bytes of ASCII, with an empty line at its end and nowhere before.
pub record IsHead (head : List ℕ) : Type 0 where
  pub closed : ends_with head empty_line ≡ true
  pub first : IsOpen head (length head)
  pub short : length head ≤ maximum_response_header_length
  pub ascii : All (λ b. b < 128) head

-- The head of a response that grants the tunnel
abbrev pub Grants : Parser → List ℕ → Type 0
Grants p head = IsHead head × (p.parse_code head ≡ ok (some 200))

-- `from_utf8` takes ASCII.
abbrev pub TakesAscii : Parser → Type 0
TakesAscii p = (text : List ℕ) → All (λ b. b < 128) text → p.is_utf8 text ≡ true

module _ (p : Parser) (laws : ReadsLines p) (utf8 : TakesAscii p) (head rest : List ℕ)
    (grants : IsHead head) where
  -- Where the text is open up to some bound, the head is not before it.
  beyond : (n : ℕ) → IsOpen (head ++ rest) n → n ≤ length head
  beyond n open_it = elim (Bool-cases (ltb (length head) n)) [
    | inr late ↦ ground arith
    | inl early ↦
        let here : ends_with head empty_line ≡ false =
          ap (λ t. ends_with t empty_line) (sym (take-append (length head) head rest refl))
          ∙ open_it (length head) (ground arith) in
        absurd cc
  ]

  -- The head ends at no later place either.
  not_before : (n : ℕ) → ends_with (take n (head ++ rest)) empty_line ≡ true → length head ≤ n
  not_before n e = elim (Bool-cases (ltb n (length head))) [
    | inr late ↦ ground arith
    | inl early ↦
        let small : n < length head = ground arith in
        let open_it = grants.first n small in
        let same = take-append_le n head rest (omega arith) in
        let closed : ends_with (take n head) empty_line ≡ true = rw same at e in absurd cc
  ]

  -- Parts of the head are UTF-8.
  part_utf8 :
      (before line after : List ℕ)
      → head ++ rest ≡ before ++ (line ++ after)
      → length (before ++ line) ≤ length head
      → p.is_utf8 line ≡ true
  part_utf8 before line after e h =
      let text = e ∙ sym (append_assoc before line after) in
      let part : take (length (before ++ line)) head ≡ before ++ line =
        sym (take-append_le (length (before ++ line)) head rest h)
        ∙ ap (take (length (before ++ line))) text
        ∙ take-append (length (before ++ line)) (before ++ line) after refl in
      let ascii : All (λ b. b < 128) (before ++ line) =
        subst (λ (t : List ℕ). All (λ b. b < 128) t) part
          (All-take (λ b. b < 128) (length (before ++ line)) head grants.ascii) in
      utf8 line (
        subst (λ (t : List ℕ). All (λ b. b < 128) t) (drop-append (length before) before line refl)
          (All-drop (λ b. b < 128) (length before) (before ++ line) ascii))

  same_head :
      (h left : List ℕ)
      → head ++ rest ≡ h ++ left
      → ends_with h empty_line ≡ true
      → IsOpen (head ++ rest) (length h)
      → ◌≡◌ {A = Result ProxyError (List ℕ × List ℕ)} (ok (h, left)) (ok (head, rest))
  same_head h left e closed open_it =
      let taken = ap (take (length h)) e ∙ take-append (length h) h left refl in
      let below = beyond (length h) open_it in
      let above = not_before (length h) (ap (λ t. ends_with t empty_line) taken ∙ closed) in
      let same : length h ≡ length head = omega arith in
      let heads : h ≡ head = sym taken ∙ take-append (length h) head rest same in
      let rests : left ≡ rest =
        sym (drop-append (length h) h left refl)
        ∙ sym (ap (drop (length h)) e)
        ∙ drop-append (length h) head rest same in
      ap (λ t. ok (t, left)) heads ∙ ap (λ t. ok (head, t)) rests

  only :
      (r : Result ProxyError (List ℕ × List ℕ)) → Outcome p (head ++ rest) r → r ≡ ok (head, rest)
  only (ok (h, left)) (e, closed, short, open_it) = same_head h left e closed open_it
  only (err end_of_file) open_it =
      absurd (omega (arith, beyond (suc (length (head ++ rest))) open_it, length-append head rest))
  only (err (maximum_response_header_length_exceeded n)) (long, inside, open_it) =
      absurd (omega (arith, beyond n open_it, grants.short))
  only (err (io_error code)) (before, line, after, e, invalid, open_it) =
      let valid = part_utf8 before line after e (beyond (length (before ++ line)) open_it) in
      absurd cc
  only (err (target_parse_error t)) h = elim h [ ]
  only (err (http_parse_error t)) h = elim h [ ]
  only (err (url_bad_scheme t)) h = elim h [ ]
  only (err (url_parse_scheme t)) h = elim h [ ]
  only (err no_http_code) h = elim h [ ]
  only (err (http_code_200 t)) h = elim h [ ]
  only (err (address_resolution_failed t)) h = elim h [ ]

  pub get_response-IsHead :
      (fuel : ℕ)
      → length (head ++ rest) < fuel
      → get_response p fuel [] (head ++ rest) ≡ some (ok (head, rest))
  get_response-IsHead fuel h =
      let (r, e, outcome) = get_response_lem p laws fuel (head ++ rest) h in
      e ∙ ap some (only r outcome)

  granted :
      (fuel : ℕ)
      → length (head ++ rest) < fuel
      → p.parse_code head ≡ ok (some 200)
      → recv_and_check_response p fuel (head ++ rest) ≡ some (ok rest)
  unfolding recv_and_check_response
  granted fuel h code =
      ap (checked p) (get_response-IsHead fuel h) ∙ ap (λ c. some (checked_code p rest c)) code

module _ {Url Addr : Type 0} (o : Outside Url Addr) (p : Parser) (laws : ReadsLines p)
    (utf8 : TakesAscii p) where
  -- The target is a host and a port, the request is written without an error, and the proxy answers
  -- with a head that grants the tunnel (at most 4096 bytes of ASCII, an empty line at its end and
  -- nowhere before, the code 200), right after which the peer's messages come in frames, each within
  -- the limits. Then, with a fuel above the number of bytes, the connection has sent the request for
  -- the target and leaves the stream exactly after the head; and the codec, in whatever pieces the
  -- bytes arrive, delivers exactly these messages once all have arrived and it asks for more. (Where
  -- `read_line` reads lines, and ASCII is taken for UTF-8.)
  pub http_connect_lem :
      (proxy : Proxy Addr) (target : TargetAddr Addr) (host : List ℕ) (port fuel : ℕ)
      (head : List ℕ) (ms : List (List ℕ)) (r : Receiver)
      → get_domain_and_port o (ok target) ≡ ok (host, port)
      → Grants p head
      → length (head ++ encode_all Codec.new [] ms) < fuel
      → All (Fits Codec.new) ms
      → Reach (start Codec.new ms) r
      → r.coming ≡ []
      → (decode r.codec r.buf).result ≡ ok none
      → let sent = encode_all Codec.new [] ms in
        (http_connect o p proxy (ok target) none fuel (head ++ sent)
          ≡ (make_request o proxy host port, some (ok sent)))
        × (r.delivered ≡ ms)
  unfolding http_connect
  http_connect_lem proxy target host port fuel head ms r e grants long fits reach over w = (
    rw e (
        ap (λ a. (make_request o proxy host port, a))
          (granted p laws utf8 head (encode_all Codec.new [] ms) grants.0 fuel long grants.1)),
    stream_complete Codec.new refl refl ms r fits reach over w,
  )
