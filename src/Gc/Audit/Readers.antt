-- ===== src/Gc/Audit/Readers.antt =====
-- What the readers of cmd/stockyard/gc_audit.go make of the output of `zfs list`, of `ip link show`,
-- and of the directories of the VMs. A resource is its owner, empty where it has none, and its name.
use stockyard.Base.{
  ℕ, ◌==◌, not, ◌||◌, none, some, List, [], ◌∷◌, ◌++◌, Text, codes, text_eq, has_prefix,
  trim_prefix, contains_text, split_on, trim_space, second_field, find_text, TextMap, put_text,
  Result, ok, err, if◌then◌else◌,
}

-- `strings.TrimSuffix(s, c)` of one byte
unfoldable pub trim_last : ℕ → Text → Text
trim_last c [] = []
trim_last c (a ∷ []) = if a == c then [] else a ∷ []
trim_last c (a ∷ b ∷ s) = a ∷ trim_last c (b ∷ s)

-- The lines of an output: none is missing, and an empty output has one.
unfoldable pub lines_of : Text → List Text
unfolding trim_last
lines_of output = let (first, rest) = split_on 10 (trim_last 10 output) in first ∷ rest

-- One line of `listAuditDatasets`.
unfoldable pub dataset_of_line : Text → Text → List (Text × Text)
dataset_of_line base line =
    let prefix = base ++ codes "/" in
    if text_eq line [] || text_eq line base
    then []
    else if not (has_prefix line prefix) || contains_text (trim_prefix line prefix) (codes "/")
    then ([], line) ∷ []
    else (trim_prefix line prefix, line) ∷ []

unfoldable pub datasets_of_lines : Text → List Text → List (Text × Text)
datasets_of_lines base [] = []
datasets_of_lines base (line ∷ lines) = dataset_of_line base line ++ datasets_of_lines base lines

unfoldable pub list_audit_datasets : Text → Text → List (Text × Text)
unfolding lines_of datasets_of_lines
list_audit_datasets base output = datasets_of_lines base (lines_of output)

pub data TapError : Type 0 where
  unreadable empty_tap_name duplicate_tap_name malformed_link_row : Text → TapError

-- The `tap_name` file of a VM: not there, not readable, or its content.
pub data TapFile : Type 0 where
  no_file broken_file : TapFile
  tap_file : Text → TapFile

-- The first loop of `listAuditTaps`: the owners of the taps, by the directories' names.
unfoldable pub tap_owners : List (Text × TapFile) → TextMap → Result TapError TextMap
tap_owners [] owners = ok owners
tap_owners ((vm, no_file) ∷ more) owners = tap_owners more owners
tap_owners ((vm, broken_file) ∷ more) owners = err (unreadable vm)
tap_owners ((vm, tap_file content) ∷ more) owners =
    let tap = trim_space content in
    let rest = tap_owners more (put_text tap vm owners) in
    if text_eq tap []
    then err (empty_tap_name vm)
    else elim (find_text tap owners) [ some other ↦ err (duplicate_tap_name tap) | none ↦ rest ]

-- The second loop: the taps among the links. One that no VM names has no owner.
unfoldable pub taps_of_lines : TextMap → List Text → Result TapError (List (Text × Text))
taps_of_lines owners [] = ok []
taps_of_lines owners (line ∷ lines) =
    let rest = taps_of_lines owners lines in
    elim (second_field line) [
      | none ↦ err (malformed_link_row line)
      | some field ↦
          let name = trim_last 58 field in
          let owner : Text = elim (find_text name owners) [ none ↦ [] | some vm ↦ vm ] in
          if has_prefix name (codes "tap-")
          then elim rest [ ok items ↦ ok ((owner, name) ∷ items) | err e ↦ err e ]
          else rest
    ]

unfoldable pub list_audit_taps : List (Text × TapFile) → Text → Result TapError (List (Text × Text))
unfolding tap_owners taps_of_lines lines_of
list_audit_taps files output = elim (tap_owners files []) [
  | ok owners ↦ taps_of_lines owners (lines_of output)
  | err e ↦ err e
]
