-- ===== src/Backend/Leases.antt =====
-- pkg/vmbackend/leases.go: the address of a MAC or a name in /var/db/dhcpd_leases. The lines are the
-- file's, as bufio.Scanner gives them; `lower` is strings.ToLower.
pub mod Newest
use stockyard.Base.{
  Text, codes, text_eq, Bool, true, false, not, ◌&&◌, Option, none, some, List, [], ◌∷◌, ◌++◌,
  has_prefix, trim_prefix, trim_space, cut_at, if◌then◌else◌,
}

-- The variables of the loop of `findIPInLeases`.
pub record Scan : Type 0 where
  pub current_ip : Text
  pub last_ip : Text
  pub matched : Bool

abbrev pub empty_scan : Scan
empty_scan = record { current_ip = []; last_ip = []; matched = false }

-- The value of a field: of a hardware address, what follows the first comma.
unfoldable pub field_value : Text → Text → Text
field_value field rest =
    if text_eq field (codes "hw_address")
    then elim (cut_at 44 rest) [ none ↦ rest | some (type, address) ↦ address ]
    else rest

module _ (lower : Text → Text) (field value : Text) where
  abbrev field_equals : Text
  field_equals = field ++ codes "="

  -- One line, trimmed.
  unfoldable pub scan_line : Scan → Text → Scan
  unfolding field_value
  scan_line s line =
      let ip =
        if has_prefix line (codes "ip_address=")
        then trim_prefix line (codes "ip_address=")
        else s.current_ip in
      let found =
        if has_prefix line field_equals
        then if text_eq (lower (field_value field (trim_prefix line field_equals))) (lower value)
          then true
          else s.matched
        else s.matched in
      if text_eq line (codes "}")
      then record {
        current_ip = [];
        last_ip = if found && not (text_eq ip []) then ip else s.last_ip;
        matched = false;
      }
      else record { current_ip = ip; last_ip = s.last_ip; matched = found }

  unfoldable pub scan_lines : Scan → List Text → Scan
  scan_lines s [] = s
  scan_lines s (line ∷ more) = scan_lines (scan_line s (trim_space line)) more

  -- `findIPInLeases` of a file that could be opened
  unfoldable pub find_ip_in_leases : List Text → Option Text
  find_ip_in_leases lines =
      let ip = (scan_lines empty_scan lines).last_ip in if text_eq ip [] then none else some ip
