-- ===== src/Proxy/Request.antt =====
-- The request of libs/hbb_common/src/proxy.rs for a tunnel, as the reader of heads reads it.
use mathlib.Core.Path.{subst, sym}
use pc_trade.Prelude.{
  ℕ, ◌≤◌, ◌<◌, ◌≡◌, ◌≢◌, refl, ap, ◌∙◌, List, [], ◌∷◌, ◌++◌, append_assoc, Option, none, some,
  false, length, arith, ok, All, All-append,
}
use pc_trade.Proxy.{Proxy, Outside, Auth, crlf, maybe_auth, make_request, get_basic_authorization}
use pc_trade.Proxy.{authorization_of, get_proxy_authorization}
use pc_trade.Proxy.Response.{Parser, get_response}
use pc_trade.Proxy.Response.{maximum_response_header_length}
use pc_trade.Proxy.Head.{HasNoNewline, ReadsLines}
use pc_trade.Proxy.Tunnel.{IsHead, TakesAscii, get_response-IsHead}
use pc_trade.PasswordSecurity.{codes}
use pc_trade.Hosts.{contains}
use pc_trade.Proxy.Lines.{IsLine, without_newline, head_of, head_of-IsHead}

module _ {Url Addr : Type 0} (o : Outside Url Addr) where
  abbrev account_lines : Option Auth → List (List ℕ)
  account_lines none = []
  account_lines (some auth) =
      (codes "Proxy-Authorization: Basic " ++ get_basic_authorization o auth) ∷ []

  abbrev request_lines : Proxy Addr → (target : List ℕ) → List (List ℕ)
  request_lines proxy target =
      (codes "CONNECT " ++ (target ++ codes " HTTP/1.1"))
      ∷ (codes "Host: " ++ target)
      ∷ account_lines (maybe_auth proxy.intercept)

  account_lem :
      (auth : Option Auth) → authorization_of o auth ++ crlf ≡ head_of (account_lines auth)
  unfolding get_proxy_authorization
  account_lem none = refl
  account_lem (some auth) =
      regroup (codes "Proxy-Authorization: Basic ") (get_basic_authorization o auth)
    where
      regroup : (a b : List ℕ) → (a ++ (b ++ crlf)) ++ crlf ≡ (a ++ b) ++ (crlf ++ crlf)
      regroup a b = simp append_assoc

  make_request-head_of :
      (proxy : Proxy Addr) (host : List ℕ) (port : ℕ)
      → make_request o proxy host port
        ≡ head_of (request_lines proxy (host ++ (b':' ∷ o.to_string port)))
  unfolding make_request
  make_request-head_of proxy host port =
      let target = host ++ (b':' ∷ o.to_string port) in
      regroup (codes "CONNECT ") target (codes " HTTP/1.1") (codes "Host: ")
        (authorization_of o (maybe_auth proxy.intercept) ++ crlf)
      ∙ ap
          (λ t.
            (codes "CONNECT " ++ (target ++ codes " HTTP/1.1"))
            ++ (crlf ++ ((codes "Host: " ++ target) ++ (crlf ++ t))))
          (account_lem (maybe_auth proxy.intercept))
    where
      regroup :
          (a t b c rest : List ℕ)
          → (a ++ (t ++ (b ++ crlf))) ++ ((c ++ (t ++ crlf)) ++ rest)
            ≡ (a ++ (t ++ b)) ++ (crlf ++ ((c ++ t) ++ (crlf ++ rest)))
      regroup a t b c rest = simp append_assoc

  -- A text without a newline between two of them
  texts-HasNoNewline :
      (a b : List ℕ) → contains 10 a ≡ false → HasNoNewline b → HasNoNewline (a ++ b)
  texts-HasNoNewline a b e h = All-append (λ c. c ≢ 10) a b (without_newline a e) h

  request_lines-IsLine :
      (proxy : Proxy Addr) (target : List ℕ)
      → ((bytes : List ℕ) → HasNoNewline (o.encode bytes))
      → HasNoNewline target
      → All IsLine (request_lines proxy target)
  unfolding get_basic_authorization
  request_lines-IsLine proxy target encoded plain = (
    (
      texts-HasNoNewline (codes "CONNECT ") (target ++ codes " HTTP/1.1") refl (
          All-append (λ c. c ≢ 10) target (codes " HTTP/1.1") plain
            (without_newline (codes " HTTP/1.1") refl)),
      omega arith,
    ),
    (
      (texts-HasNoNewline (codes "Host: ") target refl plain, omega arith),
      account (maybe_auth proxy.intercept),
    ),
  )
    where
      account : (auth : Option Auth) → All IsLine (account_lines auth)
      account none = tt
      account (some auth) = (
        (
          texts-HasNoNewline (codes "Proxy-Authorization: Basic ") (get_basic_authorization o auth)
              refl (encoded (auth.user_name ++ (b':' ∷ auth.password))),
          omega arith,
        ),
        tt,
      )

-- A request for a host whose name has no newline is one head: where it is ASCII and has at most 4096
-- bytes, a reader that takes it as this program takes a response finds its end, and reads exactly
-- the request, whatever follows it. (The text of a port, and what base64 encodes, have no newline;
-- `read_line` reads lines, and ASCII is taken for UTF-8.)
pub get_response-make_request :
    {Url Addr : Type 0} (o : Outside Url Addr) (p : Parser) (proxy : Proxy Addr) (host : List ℕ)
    (port fuel : ℕ) (rest : List ℕ)
    → ReadsLines p
    → TakesAscii p
    → ((bytes : List ℕ) → HasNoNewline (o.encode bytes))
    → HasNoNewline (o.to_string port)
    → HasNoNewline host
    → All (λ b. b < 128) (make_request o proxy host port)
    → length (make_request o proxy host port) ≤ maximum_response_header_length
    → length (make_request o proxy host port ++ rest) < fuel
    → get_response p fuel [] (make_request o proxy host port ++ rest)
      ≡ some (ok (make_request o proxy host port, rest))
get_response-make_request o p proxy host port fuel rest laws utf8 encoded digits plain ascii short
      enough =
    let target = host ++ (b':' ∷ o.to_string port) in
    let target_plain : HasNoNewline target =
      All-append (λ c. c ≢ 10) host (b':' ∷ o.to_string port) plain (omega arith, digits) in
    let lines = make_request-head_of o proxy host port in
    let is_head : IsHead (head_of (request_lines o proxy target)) =
      head_of-IsHead (codes "CONNECT " ++ (target ++ codes " HTTP/1.1"))
        ((codes "Host: " ++ target) ∷ account_lines o (maybe_auth proxy.intercept))
        (request_lines-IsLine o proxy target encoded target_plain)
        (subst (λ (t : List ℕ). length t ≤ maximum_response_header_length) lines short)
        (subst (λ (t : List ℕ). All (λ b. b < 128) t) lines ascii) in
    get_response-IsHead p laws utf8 (make_request o proxy host port) rest
      (subst IsHead (sym lines) is_head) fuel enough
