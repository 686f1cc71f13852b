-- ===== src/Proxy/Tests.antt =====
-- A way through an HTTP proxy as in libs/hbb_common/src/proxy.rs.
use pc_trade.Prelude.{ℕ, ◌≡◌, refl, List, [], ◌∷◌, ◌++◌, none, some, true, Result, ok, err, arith}
use pc_trade.BytesCodec.{decode, decode_head, decode_payload, encode}
use pc_trade.BytesCodec as Codec
use pc_trade.BytesCodec.Stream.{here, next, arrive, deliver, encode_all}
use pc_trade.PasswordSecurity.{codes}
use pc_trade.Proxy.{
  Outside, Proxy, ProxyError, domain, http, end_of_file, get_domain_and_port, make_request,
}
use pc_trade.Proxy.Response.{Parser, get_response}
use pc_trade.Proxy.Head.{read_line, ReadsLines, read_line_newline, read_line_last}
use pc_trade.Proxy.Exact.{Outcome, get_response_lem}
use pc_trade.Proxy.Tunnel.{IsHead, http_connect, http_connect_lem}
use pc_trade.Proxy.Request.{get_response-make_request}
use pc_trade.Proxy.Lines.{head_of-IsHead}

-- An address is its text, and every number is printed as one letter.
abbrev outside : Outside (List ℕ) (List ℕ)
outside = record {
  parse_url = λ text. ok text;
  has_host = λ url. true;
  to_text = λ url. url;
  scheme = λ url. codes "http";
  authority = λ url. url;
  username = λ url. [];
  password = λ url. none;
  find = λ url port. ok (url ∷ []);
  resolve = λ host port. ok (host ∷ []);
  empty_host = 0;
  parse_port = λ text. none;
  to_string = λ n. codes "9";
  addr_text = λ addr. addr;
  ip_text = λ addr. addr;
  port = λ addr. 9;
  encode = λ bytes. codes "dTpw";
}

abbrev parser : Parser
parser = record {
  is_utf8 = λ text. true;
  read_line = read_line;
  invalid_data = 0;
  parse_code = λ text. ok (some 200);
}

parser-ReadsLines : ReadsLines parser
parser-ReadsLines = record { line = read_line_newline; last = read_line_last }

abbrev through : Proxy (List ℕ)
through = record {
  intercept =
      http (some (record { user_name = codes "u"; password = codes "p" })) (codes "proxy:3128");
  ms_timeout = 600;
}

-- "OK\r\n\r\n"
abbrev granted : List ℕ
granted = 79 ∷ 75 ∷ 13 ∷ 10 ∷ 13 ∷ 10 ∷ []

get_response_lem_example :
    (r : Result ProxyError (List ℕ × List ℕ)) × (get_response parser 9 [] (granted ++ (1 ∷ []))
      ≡ some r)
    × Outcome parser (granted ++ (1 ∷ [])) r
get_response_lem_example =
    get_response_lem parser parser-ReadsLines 9 (granted ++ (1 ∷ [])) (omega arith)

-- An empty line that is not complete
unfinished : get_response parser 9 [] (79 ∷ 13 ∷ 10 ∷ 13 ∷ []) ≡ some (err end_of_file)
unfolding get_response read_line
unfinished = refl

granted-IsHead : IsHead granted
granted-IsHead =
    head_of-IsHead (codes "OK") [] ((omega arith, omega arith), tt) (omega arith) (omega arith)

abbrev five : List ℕ
five = 1 ∷ 2 ∷ 3 ∷ 4 ∷ 5 ∷ []

wire_five : encode_all Codec.new [] (five ∷ []) ≡ 20 ∷ five
unfolding encode_all encode
wire_five = refl

http_connect_lem_example :
    (http_connect outside parser through
        (ok (domain (codes "h") 9))
        none
        20
        (granted ++ encode_all Codec.new [] (five ∷ []))
      ≡ (
        make_request outside through (codes "h") 9,
        some (ok (encode_all Codec.new [] (five ∷ []))),
      ))
    × ([] ++ (five ∷ []) ≡ five ∷ [])
unfolding get_domain_and_port decode decode_head decode_payload encode_all encode
http_connect_lem_example =
    http_connect_lem outside parser parser-ReadsLines (λ text h. refl) through
      (domain (codes "h") 9) (codes "h") 9 20 granted (five ∷ []) _ refl (granted-IsHead, refl)
      (omega arith) ((omega arith, omega arith), tt)
      (next (next here (arrive (20 ∷ five) [] wire_five)) (deliver five refl)) refl refl

get_response-make_request_example :
    get_response parser 200 [] (make_request outside through (codes "h") 9 ++ (1 ∷ []))
    ≡ some (ok (make_request outside through (codes "h") 9, 1 ∷ []))
unfolding make_request
get_response-make_request_example =
    get_response-make_request outside parser through (codes "h") 9 200 (1 ∷ []) parser-ReadsLines
      (λ text h. refl) (λ bytes. omega arith) (omega arith) (omega arith) (omega arith)
      (omega arith) (omega arith)
