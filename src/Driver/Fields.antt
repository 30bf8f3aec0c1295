-- ===== src/Driver/Fields.antt =====
-- windows/driver/Descriptor.c: the fields that the report descriptor declares.
use touchpad.Base.{ℕ, zero, suc, false, true, ◌≡◌, refl, some, List, [], ◌∷◌}
use touchpad.Ioctl.{coordinate_logical_max}
use touchpad.Driver.Descriptor.{report_descriptor}
use touchpad.Driver.Hid.{Kind, input, feature, Field, parse_items, parse_descriptor}

-- The fields that the report descriptor declares, in its order.
abbrev pub field : Kind → ℕ → ℕ → ℕ → ℕ → ℕ → Field
field kind id page usage size max = record {
  kind = kind;
  report_id = id;
  usage_page = page;
  usage = usage;
  size = size;
  logical_max = max;
  constant = false;
}

abbrev pub padding : Kind → ℕ → ℕ → ℕ → ℕ → List Field → List Field
padding kind id page max zero rest = rest
padding kind id page max (suc n) rest =
    record {
      kind = kind;
      report_id = id;
      usage_page = page;
      usage = 0;
      size = 1;
      logical_max = max;
      constant = true;
    }
    ∷ padding kind id page max n rest

abbrev pub finger_fields : List Field → List Field
finger_fields rest =
    field input 5 0x0D 0x47 1 1
    ∷ field input 5 0x0D 0x42 1 1
    ∷ padding input 5 0x0D 1 6 (
        field input 5 0x0D 0x51 32 0xFFFF_FFFF
        ∷ field input 5 0x01 0x30 16 coordinate_logical_max
        ∷ field input 5 0x01 0x31 16 coordinate_logical_max
        ∷ rest)

abbrev pub certification_fields : ℕ → List Field → List Field
certification_fields zero rest = rest
certification_fields (suc n) rest = field feature 8 0xFF00 0xC5 8 0xFF ∷ certification_fields n rest

abbrev pub declared_fields : List Field
declared_fields = finger_fields (
    finger_fields (
      finger_fields (
        finger_fields (
          finger_fields (
            field input 5 0x0D 0x56 16 0xFFFF
            ∷ field input 5 0x0D 0x54 8 0x7F
            ∷ field input 5 0x09 0x01 1 1
            ∷ padding input 5 0x09 1 7 (
                field feature 7 0x0D 0x55 8 0xFF
                ∷ field feature 7 0x0D 0x59 8 0xFF
                ∷ certification_fields 256 (
                    field feature 4 0x0D 0x52 8 0x0A
                    ∷ field feature 6 0x0D 0x57 1 1
                    ∷ field feature 6 0x0D 0x58 1 1
                    ∷ padding feature 6 0x0D 1 6 [])))))))

pub parsed : parse_descriptor report_descriptor ≡ some declared_fields
unfolding parse_descriptor parse_items
parsed = refl
