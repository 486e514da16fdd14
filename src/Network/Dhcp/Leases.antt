-- ===== src/Network/Dhcp/Leases.antt =====
-- The two readers of the file of leases, and the life of the server.
use stockyard.Base.{
  ◌≡◌, ◌⊎◌, refl, inl, inr, Text, text_eq, Bool, true, false, not, ◌&&◌, ◌||◌, codes, is_ok, Option,
  none, some, List, [], ◌∷◌, ok, err, ℤ, arith, Option-cases, Result-cases, Bool-cases,
  if◌then◌else◌,
}
use stockyard.Network.Dhcp.{
  DhcpLease, get_ip_for_mac, lease_of, list_leases, DhcpHost, DhcpServer, DhcpError, Call,
  no_config, create_file, write_file, stat, no_lease_file, start, no_binary, look_path, not_stopped,
  kill, config_text, call, write_config, ensure_lease_file, start_dnsmasq, start_server,
  stop_server,
}

-- The address of the first lease of a MAC, in whatever case it is written.
unfoldable pub find_lease : (Text → Text) → Text → List DhcpLease → Option Text
find_lease lower mac [] = none
find_lease lower mac (l ∷ ls) =
    let rest = find_lease lower mac ls in
    if text_eq (lower l.mac) (lower mac) then some l.ip else rest

-- Every line is one that `ListLeases` reads.
unfoldable pub all_leases : (Text → Option ℤ) → List Text → Bool
all_leases parse_int [] = true
all_leases parse_int (l ∷ ls) =
    (elim (lease_of parse_int l) [ none ↦ false | some lease ↦ true ]) && all_leases parse_int ls

-- In a file all of whose lines are leases, `GetIPForMAC` finds the address of the first lease of
-- `ListLeases` that has the MAC, and none where no lease has it.
pub get_ip-list_leases :
    (lower : Text → Text) (parse_int : Text → Option ℤ) (mac : Text) (lines : List Text)
    → all_leases parse_int lines ≡ true
    → get_ip_for_mac lower mac lines ≡ find_lease lower mac (list_leases parse_int lines)
unfolding get_ip_for_mac list_leases find_lease all_leases lease_of
get_ip-list_leases lower parse_int mac [] all = refl
get_ip-list_leases lower parse_int mac (l ∷ ls) all =
    ground (arith, get_ip-list_leases lower parse_int mac ls)

abbrev pub is_some : {A : Type 0} → Option A → Bool
is_some none = false
is_some (some a) = true

module _ (host : DhcpHost) where
  call-cases :
      (e : DhcpError) (c : Call) (s : DhcpServer)
      → let v : DhcpServer = record s { history = c ∷ s.history } in
        (call host e c s ≡ (err e, v)) ⊎ (call host e c s ≡ (ok tt, v))
  unfolding call
  call-cases e c s = elim (Bool-cases (host.fails (c ∷ s.history))) [
    | inl q ↦ inl (rw (q) refl)
    | inr q ↦ inr (rw (q) refl)
  ]

  write_config-cmd : (s : DhcpServer) → (write_config host s).1.cmd ≡ s.cmd
  unfolding write_config
  write_config-cmd s = elim (call-cases no_config (create_file host.config_path) s) [
    | inl q ↦ ground arith
    | inr q ↦
        let v = (call host no_config (create_file host.config_path) s).1 in
        let text = config_text host.config host.lease_path host.log_path in
        elim (call-cases no_config (write_file host.config_path text) v) [
          | inl r ↦ ground arith
          | inr r ↦ ground arith
        ]
  ]

  ensure_lease_file-cmd : (s : DhcpServer) → (ensure_lease_file host s).1.cmd ≡ s.cmd
  unfolding ensure_lease_file
  ensure_lease_file-cmd s =
      let h = stat host.lease_path ∷ s.history in
      let v : DhcpServer = record s { history = h } in
      elim (Bool-cases (host.fails h && host.is_missing h)) [
        | inr q ↦ rw (q) refl
        | inl q ↦ rw (q) (elim (call-cases no_lease_file (write_file host.lease_path []) v) [
          | inl r ↦ ground arith
          | inr r ↦ ground arith
        ])
      ]

  start_dnsmasq-cmd :
      (binary : Text) (s : DhcpServer)
      → is_some (start_dnsmasq host binary s).1.cmd ≡ is_ok (start_dnsmasq host binary s).0
  unfolding start_dnsmasq
  start_dnsmasq-cmd binary s =
      let h = start binary (codes "-k" ∷ codes "-C" ∷ host.config_path ∷ []) ∷ s.history in
      elim (Bool-cases (host.fails h)) [ inl q ↦ rw (q) refl | inr q ↦ rw (q) refl ]

  start_server-cmd :
      (s : DhcpServer)
      → let (r, v) = start_server host s in is_some v.cmd ≡ (is_some s.cmd || is_ok r)
  unfolding start_server
  start_server-cmd s = elim (Option-cases s.cmd) [
    | inr (pid, c) ↦ rw (c) refl
    | inl c ↦ elim (call-cases no_binary (look_path s.binary_path) s) [
      | inl q ↦ ground arith
      | inr q ↦
          let v = (call host no_binary (look_path s.binary_path) s).1 in
          let w = (write_config host v).1 in
          let x = (ensure_lease_file host w).1 in
          elim (Result-cases (write_config host v).0) [
            | inr (e, r) ↦ ground (arith, write_config-cmd v)
            | inl (_, r) ↦ elim (Result-cases (ensure_lease_file host w).0) [
              | inr (e, t) ↦ ground (arith, write_config-cmd v, ensure_lease_file-cmd w)
              | inl (_, t) ↦ ground (arith, start_dnsmasq-cmd (host.path v.history) x)
            ]
          ]
    ]
  ]

  -- A server has a process after `Start` exactly if it had one or the start succeeded; and after `Stop`
  -- exactly if it had one and the stop failed.
  pub start_stop :
      (s : DhcpServer)
      → let (r, v) = start_server host s in
        let (q, w) = stop_server host s in
        (is_some v.cmd ≡ (is_some s.cmd || is_ok r))
        × (is_some w.cmd ≡ (is_some s.cmd && not (is_ok q)))
  unfolding stop_server
  start_stop s = (
    start_server-cmd s,
    elim (Option-cases s.cmd) [
      | inl c ↦ rw (c) refl
      | inr (pid, c) ↦ elim (call-cases not_stopped (kill pid) s) [
        | inl q ↦ ground arith
        | inr q ↦ ground arith
      ]
    ],
  )
