-- ===== src/Backend/Leases/Newest.antt =====
-- The address that is found in a file of leases, each a block of fields in any order.
use stockyard.Base.{
  ◌≡◌, refl, ap, ◌∙◌, Text, codes, text_eq, text_eq_iff, Bool, true, false, not, ◌&&◌, ◌||◌, none,
  some, List, [], ◌∷◌, ◌++◌, lacks, trim_space, has_prefix, trim_prefix, cut_prefix, if◌then◌else◌,
  arith,
}
use stockyard.Backend.Leases.{Scan, field_value, scan_line, scan_lines, find_ip_in_leases}

pub record Field : Type 0 where
  pub key : Text
  pub content : Text

abbrev pub field_of : Bool → Text
field_of hardware = if hardware then codes "hw_address" else codes "name"

-- The lines of the fields of a lease: `key=content`, the key without `=`, with white space around.
pub data Body : List Field → List Text → Type 0 where
  no_fields : Body [] []
  one_field :
      {fields : List Field} {lines : List Text} (f : Field) (line : Text)
      → lacks 61 f.key ≡ true
      → trim_space line ≡ f.key ++ 61 ∷ f.content
      → Body fields lines
      → Body (f ∷ fields) (line ∷ lines)

-- A file with these leases in this order: the fields of each stand between a line `{` and a line `}`.
pub data File : List (List Field) → List Text → Type 0 where
  no_leases : File [] []
  lease :
      {leases : List (List Field)} {lines : List Text} (fields : List Field) (body : List Text)
      (first last : Text)
      → trim_space first ≡ codes "{"
      → Body fields body
      → trim_space last ≡ codes "}"
      → File leases lines
      → File (fields ∷ leases) (first ∷ body ++ last ∷ lines)

-- The content of the last field `ip_address`, or `given`.
unfoldable pub address_of : Text → List Field → Text
address_of given [] = given
address_of given (f ∷ fs) =
    address_of (if text_eq f.key (codes "ip_address") then f.content else given) fs

prefix_key :
    (key name rest : Text)
    → lacks 61 key ≡ true
    → lacks 61 name ≡ true
    → has_prefix (key ++ 61 ∷ rest) (name ++ 61 ∷ []) ≡ text_eq key name
unfolding lacks has_prefix text_eq
prefix_key [] [] rest h k = refl
prefix_key [] (b ∷ name) rest h k = ground arith
prefix_key (a ∷ key) [] rest h k = ground arith
prefix_key (a ∷ key) (b ∷ name) rest h k = ground (arith, prefix_key key name rest)

cut_name : (name rest : Text) → cut_prefix (name ++ 61 ∷ rest) (name ++ 61 ∷ []) ≡ rest
unfolding cut_prefix
cut_name [] rest = refl
cut_name (b ∷ name) rest = cut_name name rest

-- The content of a line that has the key.
trim_key :
    (key name rest : Text)
    → text_eq key name ≡ true
    → has_prefix (key ++ 61 ∷ rest) (name ++ 61 ∷ []) ≡ true
    → trim_prefix (key ++ 61 ∷ rest) (name ++ 61 ∷ []) ≡ rest
unfolding trim_prefix
trim_key key name rest e p = rw (p) (
    ap (λ k. cut_prefix (k ++ 61 ∷ rest) (name ++ 61 ∷ [])) ((text_eq_iff key name).0 e)
    ∙ cut_name name rest)

not_brace : (key rest : Text) → text_eq (key ++ 61 ∷ rest) (codes "}") ≡ false
unfolding text_eq
not_brace [] rest = refl
not_brace (a ∷ []) rest = ground arith
not_brace (a ∷ b ∷ key) rest = ground arith

name_lacks : (hardware : Bool) → lacks 61 (field_of hardware) ≡ true
unfolding lacks
name_lacks true = refl
name_lacks false = refl

address_lacks : lacks 61 (codes "ip_address") ≡ true
unfolding lacks
address_lacks = refl

module _ (lower : Text → Text) (value : Text) where
  -- The field is the one that is searched for, with the value in whatever case.
  abbrev pub matches : Bool → Field → Bool
  matches hardware f =
      text_eq f.key (field_of hardware)
      && text_eq (lower (field_value (field_of hardware) f.content)) (lower value)

  unfoldable pub is_held : Bool → List Field → Bool
  is_held hardware [] = false
  is_held hardware (f ∷ fs) = matches hardware f || is_held hardware fs

  -- The address of the last lease that is held by the value and has one, or `given`.
  unfoldable pub newest_ip : Bool → Text → List (List Field) → Text
  newest_ip hardware given [] = given
  newest_ip hardware given (fs ∷ leases) =
      let ip = address_of [] fs in
      newest_ip hardware (if is_held hardware fs && not (text_eq ip []) then ip else given) leases

  module _ (hardware : Bool) where
    abbrev step : Scan → Text → Scan
    step s line = scan_line lower (field_of hardware) value s line

    abbrev scanned : Scan → List Text → Scan
    scanned s lines = scan_lines lower (field_of hardware) value s lines

    -- Between two leases.
    abbrev between : Text → Scan
    between last = record { current_ip = []; last_ip = last; matched = false }

    abbrev after_field : Scan → Field → Scan
    after_field s f = record {
      current_ip = if text_eq f.key (codes "ip_address") then f.content else s.current_ip;
      last_ip = s.last_ip;
      matched = s.matched || matches hardware f;
    }

    abbrev after_fields : Scan → List Field → Scan
    after_fields s fs = record {
      current_ip = address_of s.current_ip fs;
      last_ip = s.last_ip;
      matched = s.matched || is_held hardware fs;
    }

    field_line :
        (s : Scan) (f : Field)
        → lacks 61 f.key ≡ true
        → step s (f.key ++ 61 ∷ f.content) ≡ after_field s f
    unfolding scan_line
    field_line s f h =
        let p = prefix_key f.key (codes "ip_address") f.content h address_lacks in
        let q = prefix_key f.key (field_of hardware) f.content h (name_lacks hardware) in
        ground (
          arith,
          p,
          q,
          trim_key f.key (codes "ip_address") f.content,
          trim_key f.key (field_of hardware) f.content,
          not_brace f.key f.content,
        )

    scanned_fields :
        (s : Scan) (fs : List Field) (body rest : List Text)
        → Body fs body
        → scanned s (body ++ rest) ≡ scanned (after_fields s fs) rest
    unfolding scan_lines is_held address_of
    scanned_fields s _ _ rest no_fields = ap (λ t. scanned t rest) (ground arith)
    scanned_fields s _ _ rest (one_field {fields} {lines} f line h e b) =
        ap (λ t. scanned (step s t) (lines ++ rest)) e
        ∙ ap (λ t. scanned t (lines ++ rest)) (field_line s f h)
        ∙ scanned_fields (after_field s f) fields lines rest b
        ∙ ap (λ t. scanned t rest) (ground arith)

  open_line :
      (hardware : Bool) (last : Text)
      → step hardware (between hardware last) (codes "{") ≡ between hardware last
  unfolding scan_line has_prefix trim_prefix cut_prefix text_eq
  open_line true last = refl
  open_line false last = refl

  close_line :
      (hardware held : Bool) (ip last : Text)
      → step hardware (record { current_ip = ip; last_ip = last; matched = held }) (codes "}")
        ≡ between hardware (if held && not (text_eq ip []) then ip else last)
  unfolding scan_line has_prefix trim_prefix cut_prefix text_eq
  close_line true held ip last = ground arith
  close_line false held ip last = ground arith

  scan-newest :
      (hardware : Bool) (leases : List (List Field)) (lines : List Text) (last : Text)
      → File leases lines
      → (scanned hardware (between hardware last) lines).last_ip ≡ newest_ip hardware last leases
  unfolding scan_lines newest_ip
  scan-newest hardware _ _ last no_leases = refl
  scan-newest hardware _ _ given (lease {leases} {lines} fs body first last ea b ed file) =
      let ip = address_of [] fs in
      let held = is_held hardware fs in
      let next = if held && not (text_eq ip []) then ip else given in
      let opened = ap (step hardware (between hardware given)) ea ∙ open_line hardware given in
      let filled = scanned_fields hardware (between hardware given) fs body (last ∷ lines) b in
      let closed =
        ap (step hardware (after_fields hardware (between hardware given) fs)) ed
        ∙ close_line hardware held ip given in
      ap (λ s. (scanned hardware s (body ++ last ∷ lines)).last_ip) opened
      ∙ ap (λ s. s.last_ip) filled
      ∙ ap (λ s. (scanned hardware s lines).last_ip) closed
      ∙ scan-newest hardware leases lines next file

  -- In a file of leases, each with any fields in any order, the address that is found is that of the
  -- last lease that has a field of the value, in whatever case it is written, and that has an address;
  -- without such a lease none is found. The address of a lease is that of its last such field.
  pub find_ip-newest :
      (hardware : Bool) (leases : List (List Field)) (lines : List Text)
      → File leases lines
      → let ip = newest_ip hardware [] leases in
        find_ip_in_leases lower (field_of hardware) value lines
        ≡ (if text_eq ip [] then none else some ip)
  unfolding find_ip_in_leases
  find_ip-newest hardware leases lines file = rw (scan-newest hardware leases lines [] file) refl
