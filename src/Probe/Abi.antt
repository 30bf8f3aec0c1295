-- ===== src/Probe/Abi.antt =====
-- mac/Probe/MultitouchSupportABI.h: the structures of the private framework, with the layout that the
-- natural alignment of their fields gives them.
use touchpad.Base.{ℕ, ◌+◌, ◌-◌, ◌%◌, List, [], ◌∷◌}

-- What a field is made of; the fields of a structure are in its order.
pub data Layout : Type 0 where
  int32 float double : Layout

abbrev pub size_of : Layout → ℕ
size_of int32 = 4
size_of float = 4
size_of double = 8

-- `offset` rounded up to a multiple of `alignment`.
abbrev pub align : ℕ → ℕ → ℕ
align alignment offset = offset + (alignment - offset % alignment) % alignment

-- The end of the fields from an offset on; each is aligned to its size.
abbrev pub end_of : ℕ → List Layout → ℕ
end_of offset [] = offset
end_of offset (f ∷ fields) = end_of (align (size_of f) offset + size_of f) fields

-- `MTPoint`, `MTReadout` and `MTTouch`, with the fields of the inner structures in place.
abbrev pub mt_point : List Layout → List Layout
mt_point rest = float ∷ float ∷ rest

abbrev pub mt_readout : List Layout → List Layout
mt_readout rest = mt_point (mt_point rest)

abbrev pub mt_touch : List Layout
mt_touch =
    int32
    ∷ double
    ∷ int32
    ∷ int32
    ∷ int32
    ∷ int32
    ∷ mt_readout (float ∷ float ∷ float ∷ float ∷ float ∷ mt_readout (int32 ∷ int32 ∷ float ∷ []))

-- `sizeof`: a structure ends at a multiple of the greatest alignment in it.
abbrev pub sizeof_mt_point : ℕ
sizeof_mt_point = align 4 (end_of 0 (mt_point []))

abbrev pub sizeof_mt_readout : ℕ
sizeof_mt_readout = align 4 (end_of 0 (mt_readout []))

abbrev pub sizeof_mt_touch : ℕ
sizeof_mt_touch = align 8 (end_of 0 mt_touch)
