-- ===== src/Client.antt =====
-- pkg/client/url.go and pkg/client/resolve.go: which daemon a client talks to.
use stockyard.Base.{
  ◌≡◌, refl, ◌⊎◌, inl, inr, Bool, true, false, not, [], ◌∷◌, ◌++◌, Text, codes, text_eq,
  if◌then◌else◌, Result, ok, err, arith, Bool-cases, has_prefix, trim_prefix, cut_prefix,
  contains_text,
}

pub data UrlError : Type 0 where
  empty_url unsupported_scheme missing_port : UrlError

abbrev pub unix_scheme : Text
unix_scheme = codes "unix://"

abbrev pub tls_scheme : Text
tls_scheme = codes "grpcs://"

abbrev pub tcp_scheme : Text
tcp_scheme = codes "grpc://"

unfoldable pub parse_url : Text → Result UrlError (Text × Bool)
parse_url raw =
    if text_eq raw []
    then err empty_url
    else if has_prefix raw unix_scheme
    then ok (raw, false)
    else if has_prefix raw tls_scheme
    then ok (trim_prefix raw tls_scheme, true)
    else if has_prefix raw tcp_scheme
    then ok (trim_prefix raw tcp_scheme, false)
    else if contains_text raw (codes "://")
    then err unsupported_scheme
    else if contains_text raw (codes ":")
    then ok (raw, false)
    else err missing_port

abbrev pub default_socket_path : Text
default_socket_path = codes "/var/run/stockyard/stockyard.sock"

-- The variable STOCKYARD_URL is empty where it is not set.
unfoldable pub resolve_url : Text → Text → Text → Text
resolve_url flag_url env_url config_socket_path =
    if not (text_eq flag_url [])
    then flag_url
    else if not (text_eq env_url [])
    then env_url
    else if not (text_eq config_socket_path [])
    then unix_scheme ++ config_socket_path
    else unix_scheme ++ default_socket_path

has_prefix-append : (p s : Text) → has_prefix (p ++ s) p ≡ true
unfolding has_prefix
has_prefix-append [] s = refl
has_prefix-append (a ∷ p) s = ground (arith, has_prefix-append p s)

cut_prefix-append : (p s : Text) → cut_prefix (p ++ s) p ≡ s
unfolding cut_prefix
cut_prefix-append [] s = refl
cut_prefix-append (a ∷ p) s = cut_prefix-append p s

-- A prefix that is there and what is left of it make the text.
append-cut_prefix : (s p : Text) → has_prefix s p ≡ true → p ++ cut_prefix s p ≡ s
unfolding has_prefix cut_prefix
append-cut_prefix s [] h = refl
append-cut_prefix [] (b ∷ p) h = ground arith
append-cut_prefix (a ∷ s) (b ∷ p) h = ground (arith, append-cut_prefix s p)

-- Every URL that is accepted is `grpcs://` and the address, with TLS; `grpc://` and the address,
-- without; or the address itself, without TLS, which names a Unix socket or has a port and no
-- scheme.
pub parse_url_sound :
    (raw addr : Text) (tls : Bool)
    → parse_url raw ≡ ok (addr, tls)
    → (raw ≡ tls_scheme ++ addr) × (tls ≡ true)
      ⊎ (raw ≡ tcp_scheme ++ addr) × (tls ≡ false)
      ⊎ (raw ≡ addr)
        × (tls ≡ false)
        × ((has_prefix raw unix_scheme ≡ true)
            ⊎ (contains_text raw (codes "://") ≡ false) × (contains_text raw (codes ":") ≡ true))
unfolding parse_url trim_prefix
parse_url_sound raw addr tls h =
    ground (arith, append-cut_prefix raw tls_scheme, append-cut_prefix raw tcp_scheme)

-- Each scheme is read as what it says, whatever stands behind it.
pub parse_url_schemes :
    (rest : Text)
    → (parse_url (tls_scheme ++ rest) ≡ ok (rest, true))
      × (parse_url (tcp_scheme ++ rest) ≡ ok (rest, false))
      × (parse_url (unix_scheme ++ rest) ≡ ok (unix_scheme ++ rest, false))
unfolding parse_url trim_prefix has_prefix cut_prefix text_eq
parse_url_schemes rest = (refl, refl, refl)

-- With no flag and no variable, the URL that is resolved is accepted as a Unix socket without TLS,
-- that of the configuration where it names one.
pub parse-resolve :
    (config_socket_path : Text)
    → (parse_url (resolve_url [] [] config_socket_path)
        ≡ ok (resolve_url [] [] config_socket_path, false))
      × (resolve_url [] [] config_socket_path
          ≡ unix_scheme
            ++ (if text_eq config_socket_path [] then default_socket_path else config_socket_path))
unfolding resolve_url text_eq
parse-resolve path = elim (Bool-cases (text_eq path [])) [
  | inl e ↦ rw (e, resolve_url) ((parse_url_schemes default_socket_path).2, refl)
  | inr e ↦ rw (e, resolve_url) ((parse_url_schemes path).2, refl)
]
