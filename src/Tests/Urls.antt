-- ===== src/Tests/Urls.antt =====
-- The URLs of the client (pkg/client) at concrete texts.
use stockyard.Base.{
  has_prefix, contains_text, ◌≡◌, ◌⊎◌, ◌++◌, refl, true, false, Text, codes, text_eq, ok,
}
use stockyard.Client.{parse_url, tls_scheme, tcp_scheme, unix_scheme, parse_url_sound}

abbrev host_port : Text
host_port = codes "host:65433"

host-accepted : parse_url host_port ≡ ok (host_port, false)
unfolding parse_url text_eq has_prefix contains_text
host-accepted = refl

parse_url_sound_example :
    (host_port ≡ tls_scheme ++ host_port) × (false ≡ true)
    ⊎ (host_port ≡ tcp_scheme ++ host_port) × (false ≡ false)
    ⊎ (host_port ≡ host_port)
      × (false ≡ false)
      × ((has_prefix host_port unix_scheme ≡ true)
          ⊎ (contains_text host_port (codes "://") ≡ false)
            × (contains_text host_port (codes ":") ≡ true))
parse_url_sound_example = parse_url_sound host_port host_port false host-accepted

abbrev socket_path : Text
socket_path = codes "/run/s.sock"
