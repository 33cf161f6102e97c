-- ===== src/Bitpacking/Dispatch.antt =====
-- bitpacking.h: `compress_impl`, which chooses the specialisation of `pack` by the bit width.
use tsubasa.Base.{ℕ, List, [], ◌∷◌, Option, none, some, ◌==◌, if◌then◌else◌}
use tsubasa.Bitpacking.Code.{Statement}
use tsubasa.Bitpacking.Impl.U32From1.{
  pack_uint32_1, pack_uint32_2, pack_uint32_3, pack_uint32_4, pack_uint32_5, pack_uint32_6,
  pack_uint32_7, pack_uint32_8,
}
use tsubasa.Bitpacking.Impl.U32From9.{
  pack_uint32_9, pack_uint32_10, pack_uint32_11, pack_uint32_12, pack_uint32_13, pack_uint32_14,
  pack_uint32_15, pack_uint32_16,
}
use tsubasa.Bitpacking.Impl.U32From17.{
  pack_uint32_17, pack_uint32_18, pack_uint32_19, pack_uint32_20, pack_uint32_21, pack_uint32_22,
  pack_uint32_23, pack_uint32_24,
}
use tsubasa.Bitpacking.Impl.U32From25.{
  pack_uint32_25, pack_uint32_26, pack_uint32_27, pack_uint32_28, pack_uint32_29, pack_uint32_30,
  pack_uint32_31, pack_uint32_32,
}
use tsubasa.Bitpacking.Impl.U64From1.{pack_uint64_1, pack_uint64_2, pack_uint64_3, pack_uint64_4}
use tsubasa.Bitpacking.Impl.U64From5.{pack_uint64_5, pack_uint64_6, pack_uint64_7, pack_uint64_8}
use tsubasa.Bitpacking.Impl.U64From9.{pack_uint64_9, pack_uint64_10, pack_uint64_11, pack_uint64_12}
use tsubasa.Bitpacking.Impl.U64From13.{
  pack_uint64_13, pack_uint64_14, pack_uint64_15, pack_uint64_16,
}
use tsubasa.Bitpacking.Impl.U64From17.{
  pack_uint64_17, pack_uint64_18, pack_uint64_19, pack_uint64_20,
}
use tsubasa.Bitpacking.Impl.U64From21.{
  pack_uint64_21, pack_uint64_22, pack_uint64_23, pack_uint64_24,
}
use tsubasa.Bitpacking.Impl.U64From25.{
  pack_uint64_25, pack_uint64_26, pack_uint64_27, pack_uint64_28,
}
use tsubasa.Bitpacking.Impl.U64From29.{
  pack_uint64_29, pack_uint64_30, pack_uint64_31, pack_uint64_32,
}
use tsubasa.Bitpacking.Impl.U64From33.{
  pack_uint64_33, pack_uint64_34, pack_uint64_35, pack_uint64_36,
}
use tsubasa.Bitpacking.Impl.U64From37.{
  pack_uint64_37, pack_uint64_38, pack_uint64_39, pack_uint64_40,
}
use tsubasa.Bitpacking.Impl.U64From41.{
  pack_uint64_41, pack_uint64_42, pack_uint64_43, pack_uint64_44,
}
use tsubasa.Bitpacking.Impl.U64From45.{
  pack_uint64_45, pack_uint64_46, pack_uint64_47, pack_uint64_48,
}
use tsubasa.Bitpacking.Impl.U64From49.{
  pack_uint64_49, pack_uint64_50, pack_uint64_51, pack_uint64_52,
}
use tsubasa.Bitpacking.Impl.U64From53.{
  pack_uint64_53, pack_uint64_54, pack_uint64_55, pack_uint64_56,
}
use tsubasa.Bitpacking.Impl.U64From57.{
  pack_uint64_57, pack_uint64_58, pack_uint64_59, pack_uint64_60,
}
use tsubasa.Bitpacking.Impl.U64From61.{
  pack_uint64_61, pack_uint64_62, pack_uint64_63, pack_uint64_64,
}

-- A `switch` with no default: the code of the first case whose label is the value.
abbrev pub switch : ℕ → List (ℕ × List Statement) → Option (List Statement)
switch value [] = none
switch value ((label, code) ∷ cases) = if value == label then some code else switch value cases

abbrev pub cases_uint32 : List (ℕ × List Statement)
cases_uint32 =
    (1, pack_uint32_1)
    ∷ (2, pack_uint32_2)
    ∷ (3, pack_uint32_3)
    ∷ (4, pack_uint32_4)
    ∷ (5, pack_uint32_5)
    ∷ (6, pack_uint32_6)
    ∷ (7, pack_uint32_7)
    ∷ (8, pack_uint32_8)
    ∷ (9, pack_uint32_9)
    ∷ (10, pack_uint32_10)
    ∷ (11, pack_uint32_11)
    ∷ (12, pack_uint32_12)
    ∷ (13, pack_uint32_13)
    ∷ (14, pack_uint32_14)
    ∷ (15, pack_uint32_15)
    ∷ (16, pack_uint32_16)
    ∷ (17, pack_uint32_17)
    ∷ (18, pack_uint32_18)
    ∷ (19, pack_uint32_19)
    ∷ (20, pack_uint32_20)
    ∷ (21, pack_uint32_21)
    ∷ (22, pack_uint32_22)
    ∷ (23, pack_uint32_23)
    ∷ (24, pack_uint32_24)
    ∷ (25, pack_uint32_25)
    ∷ (26, pack_uint32_26)
    ∷ (27, pack_uint32_27)
    ∷ (28, pack_uint32_28)
    ∷ (29, pack_uint32_29)
    ∷ (30, pack_uint32_30)
    ∷ (31, pack_uint32_31)
    ∷ (32, pack_uint32_32)
    ∷ []

abbrev pub cases_uint64 : List (ℕ × List Statement)
cases_uint64 =
    (1, pack_uint64_1)
    ∷ (2, pack_uint64_2)
    ∷ (3, pack_uint64_3)
    ∷ (4, pack_uint64_4)
    ∷ (5, pack_uint64_5)
    ∷ (6, pack_uint64_6)
    ∷ (7, pack_uint64_7)
    ∷ (8, pack_uint64_8)
    ∷ (9, pack_uint64_9)
    ∷ (10, pack_uint64_10)
    ∷ (11, pack_uint64_11)
    ∷ (12, pack_uint64_12)
    ∷ (13, pack_uint64_13)
    ∷ (14, pack_uint64_14)
    ∷ (15, pack_uint64_15)
    ∷ (16, pack_uint64_16)
    ∷ (17, pack_uint64_17)
    ∷ (18, pack_uint64_18)
    ∷ (19, pack_uint64_19)
    ∷ (20, pack_uint64_20)
    ∷ (21, pack_uint64_21)
    ∷ (22, pack_uint64_22)
    ∷ (23, pack_uint64_23)
    ∷ (24, pack_uint64_24)
    ∷ (25, pack_uint64_25)
    ∷ (26, pack_uint64_26)
    ∷ (27, pack_uint64_27)
    ∷ (28, pack_uint64_28)
    ∷ (29, pack_uint64_29)
    ∷ (30, pack_uint64_30)
    ∷ (31, pack_uint64_31)
    ∷ (32, pack_uint64_32)
    ∷ (33, pack_uint64_33)
    ∷ (34, pack_uint64_34)
    ∷ (35, pack_uint64_35)
    ∷ (36, pack_uint64_36)
    ∷ (37, pack_uint64_37)
    ∷ (38, pack_uint64_38)
    ∷ (39, pack_uint64_39)
    ∷ (40, pack_uint64_40)
    ∷ (41, pack_uint64_41)
    ∷ (42, pack_uint64_42)
    ∷ (43, pack_uint64_43)
    ∷ (44, pack_uint64_44)
    ∷ (45, pack_uint64_45)
    ∷ (46, pack_uint64_46)
    ∷ (47, pack_uint64_47)
    ∷ (48, pack_uint64_48)
    ∷ (49, pack_uint64_49)
    ∷ (50, pack_uint64_50)
    ∷ (51, pack_uint64_51)
    ∷ (52, pack_uint64_52)
    ∷ (53, pack_uint64_53)
    ∷ (54, pack_uint64_54)
    ∷ (55, pack_uint64_55)
    ∷ (56, pack_uint64_56)
    ∷ (57, pack_uint64_57)
    ∷ (58, pack_uint64_58)
    ∷ (59, pack_uint64_59)
    ∷ (60, pack_uint64_60)
    ∷ (61, pack_uint64_61)
    ∷ (62, pack_uint64_62)
    ∷ (63, pack_uint64_63)
    ∷ (64, pack_uint64_64)
    ∷ []

-- The `switch` for a word of 64 bits, and for one of 32.
abbrev pub pack_code : ℕ → ℕ → Option (List Statement)
pack_code wordsize bw = if wordsize == 64 then switch bw cases_uint64 else switch bw cases_uint32
