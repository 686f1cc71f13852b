-- ===== src/Proxy.antt =====
-- libs/hbb_common/src/proxy.rs: the address of a proxy, its account, and the request that asks an
-- HTTP proxy for a tunnel. `url`, the resolver, base64 and the printing of addresses are the
-- parameter `Outside`; an error of a library is a number. The TLS and SOCKS5 handshakes, calls of
-- libraries, and the errors of the TLS library are left out.
pub mod Response
pub mod Head
pub mod Exact
pub mod Lines
pub mod Request
pub mod Tunnel
mod Tests
use pc_trade.Prelude.{
  ℕ, List, [], ◌∷◌, ◌++◌, Option, none, some, Bool, true, false, not, ◌==◌, ◌&&◌, if◌then◌else◌,
  Result, ok, err, ◌>>=◌,
}
use pc_trade.Fuse.Path.{name_eq}
use pc_trade.Hosts.{contains}
use pc_trade.PasswordSecurity.{codes}
use pc_trade.Config.Options.{is_empty}
use pc_trade.Config.Various.{Socks5Server}

pub data ProxyError : Type 0 where
  io_error : (code : ℕ) → ProxyError
  target_parse_error : (text : List ℕ) → ProxyError
  http_parse_error : (code : ℕ) → ProxyError
  maximum_response_header_length_exceeded : (length : ℕ) → ProxyError
  end_of_file : ProxyError
  url_bad_scheme : (scheme : List ℕ) → ProxyError
  url_parse_scheme : (code : ℕ) → ProxyError
  no_http_code : ProxyError
  http_code_200 : (code : ℕ) → ProxyError
  address_resolution_failed : (host : List ℕ) → ProxyError

pub record Auth : Type 0 where
  pub user_name : List ℕ
  pub password : List ℕ

pub data ProxyScheme (Addr : Type 0) : Type 0 where
  http : (auth : Option Auth) → (host : List ℕ) → ProxyScheme Addr
  https : (auth : Option Auth) → (host : List ℕ) → ProxyScheme Addr
  socks5 : (addr : Addr) → (auth : Option Auth) → (remote_dns : Bool) → ProxyScheme Addr

-- `authority` is what stands from the host to the port; `find` is `url.socket_addrs` with its default
-- port, and `resolve` is `to_socket_addrs`.
pub record Outside (Url Addr : Type 0) : Type 0 where
  pub parse_url : List ℕ → Result ℕ Url
  pub has_host : Url → Bool
  pub to_text : Url → List ℕ
  pub scheme : Url → List ℕ
  pub authority : Url → List ℕ
  pub username : Url → List ℕ
  pub password : Url → Option (List ℕ)
  pub find : Url → Option ℕ → Result ℕ (List Addr)
  pub resolve : (host : List ℕ) → (port : ℕ) → Result ℕ (List Addr)
  pub empty_host : ℕ
  pub parse_port : List ℕ → Option ℕ
  pub to_string : ℕ → List ℕ
  pub addr_text : Addr → List ℕ
  pub ip_text : Addr → List ℕ
  pub port : Addr → ℕ
  pub encode : List ℕ → List ℕ

pub record Proxy (Addr : Type 0) : Type 0 where
  pub intercept : ProxyScheme Addr
  pub ms_timeout : ℕ

pub data TargetAddr (Addr : Type 0) : Type 0 where
  ip : Addr → TargetAddr Addr
  domain : (name : List ℕ) → (port : ℕ) → TargetAddr Addr

-- "\r\n"
abbrev pub crlf : List ℕ
crlf = 13 ∷ 10 ∷ []

abbrev pub or_else : {A : Type 0} → Option A → A → A
or_else none b = b
or_else (some a) b = a

-- `?` on an error of the system, and on one of the parser of addresses
abbrev pub io : {A : Type 0} → Result ℕ A → Result ProxyError A
io (ok a) = ok a
io (err e) = err (io_error e)

-- The first of a list, or the error
abbrev pub next_or : {A : Type 0} → ProxyError → List A → Result ProxyError A
next_or e [] = err e
next_or e (a ∷ rest) = ok a

-- The parts before and after the first colon (`split_once`)
abbrev pub first_colon : List ℕ → List ℕ × Option (List ℕ)
first_colon [] = ([], none)
first_colon (c ∷ rest) =
    let (before, after) = first_colon rest in
    if c == b':' then ([], some rest) else (c ∷ before, after)

module _ {Addr : Type 0} where
  unfoldable pub maybe_auth : ProxyScheme Addr → Option Auth
  maybe_auth (http auth host) = auth
  maybe_auth (https auth host) = auth
  maybe_auth (socks5 addr auth remote_dns) = auth

  unfoldable pub set_basic_auth : ProxyScheme Addr → Auth → ProxyScheme Addr
  set_basic_auth (http a host) auth = http (some auth) host
  set_basic_auth (https a host) auth = https (some auth) host
  set_basic_auth (socks5 addr a remote_dns) auth = socks5 addr (some auth) remote_dns

  unfoldable pub is_http_or_https : Proxy Addr → Bool
  is_http_or_https proxy = elim proxy.intercept [
    | http auth host ↦ true
    | https auth host ↦ true
    | socks5 addr auth remote_dns ↦ false
  ]

module _ {Url Addr : Type 0} (o : Outside Url Addr) where
  abbrev pub port_of : Option (List ℕ) → Option ℕ
  port_of none = none
  port_of (some p) = o.parse_port p

  unfoldable pub resolve_host : (host : List ℕ) → (default_port : ℕ) → Result ProxyError Addr
  resolve_host host default_port =
      let (host_str, port) = first_colon host in
      io (o.resolve host_str (or_else (port_of port) default_port))
      >>= next_or (address_resolution_failed host)

  unfoldable pub socket_addrs : ProxyScheme Addr → Result ProxyError Addr
  unfolding resolve_host
  socket_addrs (http auth host) = resolve_host host 80
  socket_addrs (https auth host) = resolve_host host 443
  socket_addrs (socks5 addr auth remote_dns) = ok addr

  unfoldable pub get_domain : ProxyScheme Addr → Result ProxyError (List ℕ)
  get_domain (http auth host) = ok (first_colon host).0
  get_domain (https auth host) = ok (first_colon host).0
  get_domain (socks5 addr auth remote_dns) = ok (o.ip_text addr)

  abbrev pub append_default_port : (host : List ℕ) → (default_port : ℕ) → List ℕ
  append_default_port host default_port =
      if contains b':' host then host else host ++ (b':' ∷ o.to_string default_port)

  unfoldable pub get_host_and_port : ProxyScheme Addr → Result ProxyError (List ℕ)
  get_host_and_port (http auth host) = ok (append_default_port host 80)
  get_host_and_port (https auth host) = ok (append_default_port host 443)
  get_host_and_port (socks5 addr auth remote_dns) = ok (o.addr_text addr)

  -- `to_addr` and `ProxyScheme::socks5`
  abbrev pub socks5_of : Url → Result ProxyError (ProxyScheme Addr)
  socks5_of url =
      io (o.find url (if name_eq (o.scheme url) (codes "socks5") then some 1080 else none))
      >>= next_or (url_parse_scheme o.empty_host)
      >>= λ addr. ok (socks5 addr none false)

  abbrev pub scheme_of : Url → Result ProxyError (ProxyScheme Addr)
  scheme_of url =
      if name_eq (o.scheme url) (codes "http")
      then ok (http none (o.authority url))
      else if name_eq (o.scheme url) (codes "https")
      then ok (https none (o.authority url))
      else if name_eq (o.scheme url) (codes "socks5")
      then socks5_of url
      else err (url_bad_scheme (o.scheme url))

  abbrev pub with_account : (name : List ℕ) → Option (List ℕ) → ProxyScheme Addr → ProxyScheme Addr
  unfolding set_basic_auth
  with_account name none scheme = scheme
  with_account name (some pwd) scheme =
      set_basic_auth scheme (record { user_name = name; password = pwd })

  unfoldable pub parse : Url → Result ProxyError (ProxyScheme Addr)
  unfolding set_basic_auth
  parse url = scheme_of url >>= λ scheme. ok (with_account (o.username url) (o.password url) scheme)

  abbrev pub checked_url : Url → Result ProxyError Url
  checked_url url = if o.has_host url then ok url else err (url_bad_scheme (o.to_text url))

  abbrev pub parse_error : Result ℕ Url → Result ProxyError Url
  parse_error (ok url) = ok url
  parse_error (err e) = err (url_parse_scheme e)

  unfoldable pub into_url : List ℕ → Result ProxyError Url
  into_url text = parse_error (o.parse_url text) >>= checked_url

  -- A text that is not an address is tried once more with "socks5://" in front.
  abbrev pub url_or_socks5 : List ℕ → Result ProxyError Url → Result ProxyError Url
  unfolding into_url
  url_or_socks5 text (ok url) = ok url
  url_or_socks5 text (err (url_parse_scheme e)) = into_url (codes "socks5://" ++ text)
  url_or_socks5 text (err e) = err e

  unfoldable pub into_proxy_scheme : List ℕ → Result ProxyError (ProxyScheme Addr)
  unfolding into_url parse
  into_proxy_scheme text = url_or_socks5 text (into_url text) >>= parse

  unfoldable pub new : List ℕ → (ms_timeout : ℕ) → Result ProxyError (Proxy Addr)
  unfolding into_proxy_scheme
  new proxy_scheme ms_timeout = into_proxy_scheme proxy_scheme >>= λ scheme.
      ok (record { intercept = scheme; ms_timeout = ms_timeout })

  -- `basic_auth`, where there is an account
  abbrev pub with_conf : Socks5Server → Proxy Addr → Proxy Addr
  unfolding set_basic_auth
  with_conf conf proxy =
      if not (is_empty conf.password) && not (is_empty conf.username)
      then record proxy {
        intercept =
            set_basic_auth proxy.intercept
              (record { user_name = conf.username; password = conf.password });
      }
      else proxy

  unfoldable pub from_conf : Socks5Server → (ms_timeout : Option ℕ) → Result ProxyError (Proxy Addr)
  unfolding new set_basic_auth
  from_conf conf ms_timeout =
      new conf.proxy (or_else ms_timeout 600) >>= λ proxy. ok (with_conf conf proxy)

  unfoldable pub get_basic_authorization : Auth → List ℕ
  get_basic_authorization auth = o.encode (auth.user_name ++ (b':' ∷ auth.password))

  unfoldable pub get_proxy_authorization : Auth → List ℕ
  unfolding get_basic_authorization
  get_proxy_authorization auth =
      codes "Proxy-Authorization: Basic " ++ (get_basic_authorization auth ++ crlf)

  abbrev pub authorization_of : Option Auth → List ℕ
  unfolding get_proxy_authorization
  authorization_of none = []
  authorization_of (some auth) = get_proxy_authorization auth

  unfoldable pub make_request : Proxy Addr → (host : List ℕ) → (port : ℕ) → List ℕ
  unfolding maybe_auth get_proxy_authorization
  make_request proxy host port =
      let target = host ++ (b':' ∷ o.to_string port) in
      (codes "CONNECT " ++ (target ++ (codes " HTTP/1.1" ++ crlf)))
      ++ ((codes "Host: " ++ (target ++ crlf))
          ++ (authorization_of (maybe_auth proxy.intercept) ++ crlf))

  unfoldable pub get_domain_and_port :
      Result (List ℕ) (TargetAddr Addr) → Result ProxyError (List ℕ × ℕ)
  get_domain_and_port (err e) = err (target_parse_error e)
  get_domain_and_port (ok (ip addr)) = ok (o.ip_text addr, o.port addr)
  get_domain_and_port (ok (domain name port)) = ok (name, port)
