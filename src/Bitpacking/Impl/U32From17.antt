-- ===== src/Bitpacking/Impl/U32From17.antt =====
-- bitpacking_impl.h: the bodies of `vertical_bitpacking< uint32_t >::pack< 17 >` to `pack< 24 >`.
use tsubasa.Base.{List, repeat}
use tsubasa.Bitpacking.Code.{Statement}
use tsubasa.Bitpacking.Impl.Text.{◌⨾◌, load, shift_in, spill, store}

abbrev pub pack_uint32_17 : List Statement
pack_uint32_17 = repeat 2 (
    load
    ⨾ spill 17 15
    ⨾ shift_in 2
    ⨾ spill 19 13
    ⨾ shift_in 4
    ⨾ spill 21 11
    ⨾ shift_in 6
    ⨾ spill 23 9
    ⨾ shift_in 8
    ⨾ spill 25 7
    ⨾ shift_in 10
    ⨾ spill 27 5
    ⨾ shift_in 12
    ⨾ spill 29 3
    ⨾ shift_in 14
    ⨾ spill 31 1
    ⨾ spill 16 16
    ⨾ shift_in 1
    ⨾ spill 18 14
    ⨾ shift_in 3
    ⨾ spill 20 12
    ⨾ shift_in 5
    ⨾ spill 22 10
    ⨾ shift_in 7
    ⨾ spill 24 8
    ⨾ shift_in 9
    ⨾ spill 26 6
    ⨾ shift_in 11
    ⨾ spill 28 4
    ⨾ shift_in 13
    ⨾ spill 30 2
    ⨾ store 15)

abbrev pub pack_uint32_18 : List Statement
pack_uint32_18 = repeat 4 (
    load
    ⨾ spill 18 14
    ⨾ shift_in 4
    ⨾ spill 22 10
    ⨾ shift_in 8
    ⨾ spill 26 6
    ⨾ shift_in 12
    ⨾ spill 30 2
    ⨾ spill 16 16
    ⨾ shift_in 2
    ⨾ spill 20 12
    ⨾ shift_in 6
    ⨾ spill 24 8
    ⨾ shift_in 10
    ⨾ spill 28 4
    ⨾ store 14)

abbrev pub pack_uint32_19 : List Statement
pack_uint32_19 = repeat 2 (
    load
    ⨾ spill 19 13
    ⨾ shift_in 6
    ⨾ spill 25 7
    ⨾ shift_in 12
    ⨾ spill 31 1
    ⨾ spill 18 14
    ⨾ shift_in 5
    ⨾ spill 24 8
    ⨾ shift_in 11
    ⨾ spill 30 2
    ⨾ spill 17 15
    ⨾ shift_in 4
    ⨾ spill 23 9
    ⨾ shift_in 10
    ⨾ spill 29 3
    ⨾ spill 16 16
    ⨾ shift_in 3
    ⨾ spill 22 10
    ⨾ shift_in 9
    ⨾ spill 28 4
    ⨾ spill 15 17
    ⨾ shift_in 2
    ⨾ spill 21 11
    ⨾ shift_in 8
    ⨾ spill 27 5
    ⨾ spill 14 18
    ⨾ shift_in 1
    ⨾ spill 20 12
    ⨾ shift_in 7
    ⨾ spill 26 6
    ⨾ store 13)

abbrev pub pack_uint32_20 : List Statement
pack_uint32_20 = repeat 8 (
    load ⨾ spill 20 12 ⨾ shift_in 8 ⨾ spill 28 4 ⨾ spill 16 16 ⨾ shift_in 4 ⨾ spill 24 8 ⨾ store 12)

abbrev pub pack_uint32_21 : List Statement
pack_uint32_21 = repeat 2 (
    load
    ⨾ spill 21 11
    ⨾ shift_in 10
    ⨾ spill 31 1
    ⨾ spill 20 12
    ⨾ shift_in 9
    ⨾ spill 30 2
    ⨾ spill 19 13
    ⨾ shift_in 8
    ⨾ spill 29 3
    ⨾ spill 18 14
    ⨾ shift_in 7
    ⨾ spill 28 4
    ⨾ spill 17 15
    ⨾ shift_in 6
    ⨾ spill 27 5
    ⨾ spill 16 16
    ⨾ shift_in 5
    ⨾ spill 26 6
    ⨾ spill 15 17
    ⨾ shift_in 4
    ⨾ spill 25 7
    ⨾ spill 14 18
    ⨾ shift_in 3
    ⨾ spill 24 8
    ⨾ spill 13 19
    ⨾ shift_in 2
    ⨾ spill 23 9
    ⨾ spill 12 20
    ⨾ shift_in 1
    ⨾ spill 22 10
    ⨾ store 11)

abbrev pub pack_uint32_22 : List Statement
pack_uint32_22 = repeat 4 (
    load
    ⨾ spill 22 10
    ⨾ spill 12 20
    ⨾ shift_in 2
    ⨾ spill 24 8
    ⨾ spill 14 18
    ⨾ shift_in 4
    ⨾ spill 26 6
    ⨾ spill 16 16
    ⨾ shift_in 6
    ⨾ spill 28 4
    ⨾ spill 18 14
    ⨾ shift_in 8
    ⨾ spill 30 2
    ⨾ spill 20 12
    ⨾ store 10)

abbrev pub pack_uint32_23 : List Statement
pack_uint32_23 = repeat 2 (
    load
    ⨾ spill 23 9
    ⨾ spill 14 18
    ⨾ shift_in 5
    ⨾ spill 28 4
    ⨾ spill 19 13
    ⨾ spill 10 22
    ⨾ shift_in 1
    ⨾ spill 24 8
    ⨾ spill 15 17
    ⨾ shift_in 6
    ⨾ spill 29 3
    ⨾ spill 20 12
    ⨾ spill 11 21
    ⨾ shift_in 2
    ⨾ spill 25 7
    ⨾ spill 16 16
    ⨾ shift_in 7
    ⨾ spill 30 2
    ⨾ spill 21 11
    ⨾ spill 12 20
    ⨾ shift_in 3
    ⨾ spill 26 6
    ⨾ spill 17 15
    ⨾ shift_in 8
    ⨾ spill 31 1
    ⨾ spill 22 10
    ⨾ spill 13 19
    ⨾ shift_in 4
    ⨾ spill 27 5
    ⨾ spill 18 14
    ⨾ store 9)

abbrev pub pack_uint32_24 : List Statement
pack_uint32_24 = repeat 16 (load ⨾ spill 24 8 ⨾ spill 16 16 ⨾ store 8)
