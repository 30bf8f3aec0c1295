-- ===== src/Driver/Hid.antt =====
-- How a host reads a HID report descriptor (Device Class Definition for HID, 6.2.2), as far as the
-- items of windows/driver/Descriptor.c go: the fields that it declares, and their values in a report.
use touchpad.Base.{
  ℕ, zero, suc, ◌+◌, ◌-◌, ◌*◌, ◌/◌, ◌%◌, ◌^◌, Bool, true, false, ◌&&◌, ltb, ◌==◌, if◌then◌else◌,
  Option, none, some, List, [], ◌∷◌, ◌++◌, take, drop, length,
}

pub data Kind : Type 0 where
  input feature : Kind

abbrev pub same_kind : Kind → Kind → Bool
same_kind input input = true
same_kind feature feature = true
same_kind input feature = false
same_kind feature input = false

-- One field of a report; a constant one is padding.
pub record Field : Type 0 where
  pub kind : Kind
  pub report_id : ℕ
  pub usage_page : ℕ
  pub usage : ℕ
  pub size : ℕ
  pub logical_max : ℕ
  pub constant : Bool

-- The global items that matter for the layout, the usages since the last main item, the collections
-- that are open, and the fields so far.
pub record Parser : Type 0 where
  pub usage_page : ℕ
  pub logical_max : ℕ
  pub report_size : ℕ
  pub report_count : ℕ
  pub report_id : ℕ
  pub usages : List ℕ
  pub depth : ℕ
  pub fields : List Field

abbrev pub new_parser : Parser
new_parser = record {
  usage_page = 0;
  logical_max = 0;
  report_size = 0;
  report_count = 0;
  report_id = 0;
  usages = [];
  depth = 0;
  fields = [];
}

-- A number of little-endian bytes.
abbrev pub little_endian : List ℕ → ℕ
little_endian [] = 0
little_endian (b ∷ bytes) = b + 2 ^ 8 * little_endian bytes

-- A usage for each of `n` fields; the last one stands for all that are missing.
abbrev pub usages_for : ℕ → ℕ → List ℕ → List ℕ
usages_for zero last usages = []
usages_for (suc n) last [] = last ∷ usages_for n last []
usages_for (suc n) last (u ∷ usages) = u ∷ usages_for n u usages

abbrev pub fields_for : Kind → Bool → Parser → List ℕ → List Field
fields_for kind constant p [] = []
fields_for kind constant p (u ∷ usages) =
    record {
      kind = kind;
      report_id = p.report_id;
      usage_page = p.usage_page;
      usage = u;
      size = p.report_size;
      logical_max = p.logical_max;
      constant = constant;
    }
    ∷ fields_for kind constant p usages

abbrev pub add_fields : Kind → ℕ → Parser → Parser
add_fields kind flags p = record p {
  usages = [];
  fields = p.fields ++ fields_for kind (flags % 2 == 1) p (usages_for p.report_count 0 p.usages);
}

-- One item, by its prefix without the size bits. A unit, a minimum or a physical extent is not part
-- of the layout; an item that the descriptor does not use is an error.
abbrev pub apply_item : ℕ → ℕ → Parser → Option Parser
apply_item tag value p =
    if tag == 0x04
    then some (record p { usage_page = value })
    else if tag == 0x14
    then some p
    else if tag == 0x24
    then some (record p { logical_max = value })
    else if tag == 0x34
    then some p
    else if tag == 0x44
    then some p
    else if tag == 0x54
    then some p
    else if tag == 0x64
    then some p
    else if tag == 0x74
    then some (record p { report_size = value })
    else if tag == 0x84
    then some (record p { report_id = value })
    else if tag == 0x94
    then some (record p { report_count = value })
    else if tag == 0x08
    then some (record p { usages = p.usages ++ (value ∷ []) })
    else if tag == 0xA0
    then some (record p { usages = []; depth = p.depth + 1 })
    else if tag == 0xC0
    then if p.depth == 0 then none else some (record p { usages = []; depth = p.depth - 1 })
    else if p.depth == 0
    then none
    else if tag == 0x80
    then some (add_fields input value p)
    else if tag == 0xB0
    then some (add_fields feature value p)
    else none

-- The bytes of data behind a prefix.
abbrev pub data_size : ℕ → ℕ
data_size prefix = if prefix % 4 == 3 then 4 else prefix % 4

abbrev pub and_then : Option Parser → (Parser → Option (List Field)) → Option (List Field)
and_then none next = none
and_then (some p) next = next p

-- The items, with one round of `fuel` for each.
unfoldable pub parse_items : ℕ → List ℕ → Parser → Option (List Field)
parse_items fuel [] p = if p.depth == 0 then some p.fields else none
parse_items zero (prefix ∷ bytes) p = none
parse_items (suc fuel) (prefix ∷ bytes) p =
    if ltb (length bytes) (data_size prefix)
    then none
    else and_then
        (apply_item (prefix - prefix % 4) (little_endian (take (data_size prefix) bytes)) p)
        (parse_items fuel (drop (data_size prefix) bytes))

unfoldable pub parse_descriptor : List ℕ → Option (List Field)
unfolding parse_items
parse_descriptor bytes = parse_items (length bytes) bytes new_parser

-- The fields of one report, padding included, in their order.
abbrev pub report_fields : Kind → ℕ → List Field → List Field
report_fields kind id [] = []
report_fields kind id (f ∷ fields) =
    let rest = report_fields kind id fields in
    if same_kind kind f.kind && f.report_id == id then f ∷ rest else rest

abbrev pub bits_of : List Field → ℕ
bits_of [] = 0
bits_of (f ∷ fields) = f.size + bits_of fields

-- The value of `size` bits at a bit offset.
abbrev pub read_bits : ℕ → ℕ → List ℕ → ℕ
read_bits offset size bytes =
    little_endian (take ((offset % 8 + size + 7) / 8) (drop (offset / 8) bytes))
    / 2 ^ (offset % 8)
    % 2 ^ size

-- What a host reads: the usage page, the usage, the largest logical value, and the value.
pub record Reading : Type 0 where
  pub usage_page : ℕ
  pub usage : ℕ
  pub logical_max : ℕ
  pub value : ℕ

abbrev pub read_fields : ℕ → List Field → List ℕ → List Reading
read_fields offset [] bytes = []
read_fields offset (f ∷ fields) bytes =
    let rest = read_fields (offset + f.size) fields bytes in
    if f.constant
    then rest
    else record {
      usage_page = f.usage_page;
      usage = f.usage;
      logical_max = f.logical_max;
      value = read_bits offset f.size bytes;
    }
      ∷ rest

-- The readings of an input report: its first byte is the identifier, and the length must fit.
abbrev pub read_report : List Field → List ℕ → Option (List Reading)
read_report fields [] = none
read_report fields (id ∷ bytes) =
    let own = report_fields input id fields in
    if bits_of own == 8 * length bytes then some (read_fields 0 own bytes) else none

abbrev pub read_by : Option (List Field) → List ℕ → Option (List Reading)
read_by none bytes = none
read_by (some fields) bytes = read_report fields bytes

-- What a host that was given the descriptor reads in a report.
unfoldable pub host_reads : List ℕ → List ℕ → Option (List Reading)
unfolding parse_descriptor
host_reads descriptor bytes = read_by (parse_descriptor descriptor) bytes

abbrev pub length_by : Kind → ℕ → Option (List Field) → ℕ
length_by kind id none = 0
length_by kind id (some fields) = 1 + bits_of (report_fields kind id fields) / 8

-- The length of a report, its identifier included, in the descriptor.
unfoldable pub report_length : List ℕ → Kind → ℕ → ℕ
unfolding parse_descriptor
report_length descriptor kind id = length_by kind id (parse_descriptor descriptor)
