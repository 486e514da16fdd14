-- ===== src/Network/Dhcp.antt =====
-- pkg/network/dhcp.go: the dnsmasq server and its file of leases.
pub mod Leases
use stockyard.Base.{
  ℕ, zero, suc, ◌+◌, ℤ, Text, codes, text_eq, Bool, true, false, not, ◌&&◌, leb, length, String,
  Option, none, some, List, [], ◌∷◌, ◌++◌, Result, ok, err, next_word, trim_front, spaces,
  if◌then◌else◌,
}
use stockyard.Base.Steps.{Step, ◌>>=◌, ◌>>◌, return, throw, done}

pub record DhcpConfig : Type 0 where
  pub bridge : Text
  pub gateway : Text
  pub range_start : Text
  pub range_end : Text
  pub netmask : Text
  pub lease_time : Text
  pub dns : Text

-- `validateDHCPConfig`: the first field that is missing
unfoldable pub validate_dhcp_config : DhcpConfig → Option String
validate_dhcp_config c =
    if text_eq c.bridge []
    then some "dhcp: bridge is required"
    else if text_eq c.gateway []
    then some "dhcp: gateway is required"
    else if text_eq c.range_start []
    then some "dhcp: range start is required"
    else if text_eq c.range_end []
    then some "dhcp: range end is required"
    else if text_eq c.netmask []
    then some "dhcp: netmask is required"
    else none

abbrev line : List Text → Text
line [] = 10 ∷ []
line (t ∷ ts) = t ++ line ts

-- The configuration of dnsmasq.
unfoldable pub config_text : DhcpConfig → Text → Text → Text
config_text c lease_path log_path =
    line (codes "interface=" ∷ c.bridge ∷ [])
    ++ line (codes "bind-interfaces" ∷ [])
    ++ line (
        codes "dhcp-range="
        ∷ c.range_start
        ∷ codes ","
        ∷ c.range_end
        ∷ codes ","
        ∷ c.netmask
        ∷ codes ","
        ∷ c.lease_time
        ∷ [])
    ++ line (codes "dhcp-option=option:router," ∷ c.gateway ∷ [])
    ++ line (codes "dhcp-option=option:dns-server," ∷ c.dns ∷ [])
    ++ line (codes "dhcp-authoritative" ∷ [])
    ++ line (codes "dhcp-leasefile=" ∷ lease_path ∷ [])
    ++ line (codes "log-dhcp" ∷ [])
    ++ line (codes "log-facility=" ∷ log_path ∷ [])

pub data Call : Type 0 where
  look_path stat create_file : Text → Call
  write_file : Text → Text → Call
  start : Text → List Text → Call
  kill wait_child signal_zero : ℕ → Call

pub data DhcpError : Type 0 where
  already_running no_binary no_config no_lease_file not_started not_stopped : DhcpError

-- What the host answers, by all the calls made so far; the call itself comes first.
pub record DhcpHost : Type 0 where
  pub fails : List Call → Bool
  pub is_missing : List Call → Bool  -- `os.IsNotExist` of the error of a stat
  pub path : List Call → Text
  pub pid : List Call → ℕ
  pub config : DhcpConfig
  pub config_path : Text
  pub lease_path : Text
  pub log_path : Text

-- A DHCPServer: `cmd` holds the process, where one was started.
pub record DhcpServer : Type 0 where
  pub binary_path : Text
  pub cmd : Option ℕ
  pub history : List Call

abbrev pub M : Type 0 → Type 0
M A = Step DhcpServer DhcpError A

module _ (host : DhcpHost) where
  -- A call whose failure is the error given.
  unfoldable pub call : DhcpError → Call → M (Unit {0})
  call e c s =
      let h = c ∷ s.history in
      if host.fails h then (err e, record s { history = h }) else (ok tt, record s { history = h })

  -- `writeConfigLocked`
  unfoldable pub write_config : M (Unit {0})
  write_config = do
    call no_config (create_file host.config_path)
    call no_config
        (write_file host.config_path (config_text host.config host.lease_path host.log_path))

  -- An empty file of leases, where there is none.
  unfoldable pub ensure_lease_file : M (Unit {0})
  ensure_lease_file s =
      let h = stat host.lease_path ∷ s.history in
      let s' : DhcpServer = record s { history = h } in
      if host.fails h && host.is_missing h
      then call no_lease_file (write_file host.lease_path []) s'
      else (ok tt, s')

  unfoldable pub start_dnsmasq : Text → M (Unit {0})
  start_dnsmasq binary s =
      let h = start binary (codes "-k" ∷ codes "-C" ∷ host.config_path ∷ []) ∷ s.history in
      if host.fails h
      then (err not_started, record s { cmd = none; history = h })
      else (ok tt, record s { cmd = some (host.pid h); history = h })

  unfoldable pub start_server : M (Unit {0})
  start_server s = elim s.cmd [
    | some pid ↦ (err already_running, s)
    | none ↦
        (do
          call no_binary (look_path s.binary_path)
          binary ← λ v. (ok (host.path v.history), v)
          write_config
          ensure_lease_file
          start_dnsmasq binary)
          s
  ]

  unfoldable pub stop_server : M (Unit {0})
  stop_server s = elim s.cmd [
    | none ↦ (ok tt, s)
    | some pid ↦
        (do
          call not_stopped (kill pid)
          λ v. (ok tt, record v { cmd = none; history = wait_child pid ∷ v.history }))
          s
  ]

  unfoldable pub is_server_running : DhcpServer → Bool
  is_server_running s = elim s.cmd [
    | none ↦ false
    | some pid ↦ not (host.fails (signal_zero pid ∷ s.history))
  ]

-- `strings.Fields`; the fuel is the length of the text.
unfoldable pub fields_from : ℕ → Text → List Text
fields_from zero s = []
fields_from (suc fuel) s =
    let (word, rest) = next_word (trim_front (length s) spaces s) in
    let more = fields_from fuel rest in elim word [ [] ↦ [] | c ∷ cs ↦ (c ∷ cs) ∷ more ]

unfoldable pub fields : Text → List Text
fields s = fields_from (length s) s

-- The loop of `GetIPForMAC`; `lower` is strings.ToLower.
unfoldable pub get_ip_for_mac : (Text → Text) → Text → List Text → Option Text
get_ip_for_mac lower mac [] = none
get_ip_for_mac lower mac (l ∷ ls) =
    let rest = get_ip_for_mac lower mac ls in
    elim (fields l) [
      | expiry ∷ held ∷ ip ∷ more ↦ if text_eq (lower held) (lower mac) then some ip else rest
      | _ ↦ rest
    ]

pub record DhcpLease : Type 0 where
  pub expiry : ℤ
  pub mac : Text
  pub ip : Text
  pub hostname : Text
  pub client_id : Text

-- A line of `ListLeases`: it has five fields, and the first is a number.
unfoldable pub lease_of : (Text → Option ℤ) → Text → Option DhcpLease
lease_of parse_int l = elim (fields l) [
  | expiry ∷ mac ∷ ip ∷ hostname ∷ client_id ∷ more ↦ elim (parse_int expiry) [
    | none ↦ none
    | some at ↦
        some
          (record { expiry = at; mac = mac; ip = ip; hostname = hostname; client_id = client_id })
  ]
  | _ ↦ none
]

unfoldable pub list_leases : (Text → Option ℤ) → List Text → List DhcpLease
list_leases parse_int [] = []
list_leases parse_int (l ∷ ls) =
    let rest = list_leases parse_int ls in
    elim (lease_of parse_int l) [ none ↦ rest | some lease ↦ lease ∷ rest ]
