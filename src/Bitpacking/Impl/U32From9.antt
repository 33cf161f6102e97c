-- ===== src/Bitpacking/Impl/U32From9.antt =====
-- bitpacking_impl.h: the bodies of `vertical_bitpacking< uint32_t >::pack< 9 >` to `pack< 16 >`.
use tsubasa.Base.{List, repeat}
use tsubasa.Bitpacking.Code.{Statement}
use tsubasa.Bitpacking.Impl.Text.{◌⨾◌, load, shift_in, spill, store}

abbrev pub pack_uint32_9 : List Statement
pack_uint32_9 = repeat 2 (
    load
    ⨾ shift_in 9
    ⨾ shift_in 18
    ⨾ spill 27 5
    ⨾ shift_in 4
    ⨾ shift_in 13
    ⨾ shift_in 22
    ⨾ spill 31 1
    ⨾ shift_in 8
    ⨾ shift_in 17
    ⨾ spill 26 6
    ⨾ shift_in 3
    ⨾ shift_in 12
    ⨾ shift_in 21
    ⨾ spill 30 2
    ⨾ shift_in 7
    ⨾ shift_in 16
    ⨾ spill 25 7
    ⨾ shift_in 2
    ⨾ shift_in 11
    ⨾ shift_in 20
    ⨾ spill 29 3
    ⨾ shift_in 6
    ⨾ shift_in 15
    ⨾ spill 24 8
    ⨾ shift_in 1
    ⨾ shift_in 10
    ⨾ shift_in 19
    ⨾ spill 28 4
    ⨾ shift_in 5
    ⨾ shift_in 14
    ⨾ store 23)

abbrev pub pack_uint32_10 : List Statement
pack_uint32_10 = repeat 4 (
    load
    ⨾ shift_in 10
    ⨾ shift_in 20
    ⨾ spill 30 2
    ⨾ shift_in 8
    ⨾ shift_in 18
    ⨾ spill 28 4
    ⨾ shift_in 6
    ⨾ shift_in 16
    ⨾ spill 26 6
    ⨾ shift_in 4
    ⨾ shift_in 14
    ⨾ spill 24 8
    ⨾ shift_in 2
    ⨾ shift_in 12
    ⨾ store 22)

abbrev pub pack_uint32_11 : List Statement
pack_uint32_11 = repeat 2 (
    load
    ⨾ shift_in 11
    ⨾ spill 22 10
    ⨾ shift_in 1
    ⨾ shift_in 12
    ⨾ spill 23 9
    ⨾ shift_in 2
    ⨾ shift_in 13
    ⨾ spill 24 8
    ⨾ shift_in 3
    ⨾ shift_in 14
    ⨾ spill 25 7
    ⨾ shift_in 4
    ⨾ shift_in 15
    ⨾ spill 26 6
    ⨾ shift_in 5
    ⨾ shift_in 16
    ⨾ spill 27 5
    ⨾ shift_in 6
    ⨾ shift_in 17
    ⨾ spill 28 4
    ⨾ shift_in 7
    ⨾ shift_in 18
    ⨾ spill 29 3
    ⨾ shift_in 8
    ⨾ shift_in 19
    ⨾ spill 30 2
    ⨾ shift_in 9
    ⨾ shift_in 20
    ⨾ spill 31 1
    ⨾ shift_in 10
    ⨾ store 21)

abbrev pub pack_uint32_12 : List Statement
pack_uint32_12 = repeat 8 (
    load ⨾ shift_in 12 ⨾ spill 24 8 ⨾ shift_in 4 ⨾ shift_in 16 ⨾ spill 28 4 ⨾ shift_in 8 ⨾ store 20)

abbrev pub pack_uint32_13 : List Statement
pack_uint32_13 = repeat 2 (
    load
    ⨾ shift_in 13
    ⨾ spill 26 6
    ⨾ shift_in 7
    ⨾ spill 20 12
    ⨾ shift_in 1
    ⨾ shift_in 14
    ⨾ spill 27 5
    ⨾ shift_in 8
    ⨾ spill 21 11
    ⨾ shift_in 2
    ⨾ shift_in 15
    ⨾ spill 28 4
    ⨾ shift_in 9
    ⨾ spill 22 10
    ⨾ shift_in 3
    ⨾ shift_in 16
    ⨾ spill 29 3
    ⨾ shift_in 10
    ⨾ spill 23 9
    ⨾ shift_in 4
    ⨾ shift_in 17
    ⨾ spill 30 2
    ⨾ shift_in 11
    ⨾ spill 24 8
    ⨾ shift_in 5
    ⨾ shift_in 18
    ⨾ spill 31 1
    ⨾ shift_in 12
    ⨾ spill 25 7
    ⨾ shift_in 6
    ⨾ store 19)

abbrev pub pack_uint32_14 : List Statement
pack_uint32_14 = repeat 4 (
    load
    ⨾ shift_in 14
    ⨾ spill 28 4
    ⨾ shift_in 10
    ⨾ spill 24 8
    ⨾ shift_in 6
    ⨾ spill 20 12
    ⨾ shift_in 2
    ⨾ shift_in 16
    ⨾ spill 30 2
    ⨾ shift_in 12
    ⨾ spill 26 6
    ⨾ shift_in 8
    ⨾ spill 22 10
    ⨾ shift_in 4
    ⨾ store 18)

abbrev pub pack_uint32_15 : List Statement
pack_uint32_15 = repeat 2 (
    load
    ⨾ shift_in 15
    ⨾ spill 30 2
    ⨾ shift_in 13
    ⨾ spill 28 4
    ⨾ shift_in 11
    ⨾ spill 26 6
    ⨾ shift_in 9
    ⨾ spill 24 8
    ⨾ shift_in 7
    ⨾ spill 22 10
    ⨾ shift_in 5
    ⨾ spill 20 12
    ⨾ shift_in 3
    ⨾ spill 18 14
    ⨾ shift_in 1
    ⨾ shift_in 16
    ⨾ spill 31 1
    ⨾ shift_in 14
    ⨾ spill 29 3
    ⨾ shift_in 12
    ⨾ spill 27 5
    ⨾ shift_in 10
    ⨾ spill 25 7
    ⨾ shift_in 8
    ⨾ spill 23 9
    ⨾ shift_in 6
    ⨾ spill 21 11
    ⨾ shift_in 4
    ⨾ spill 19 13
    ⨾ shift_in 2
    ⨾ store 17)

abbrev pub pack_uint32_16 : List Statement
pack_uint32_16 = repeat 32 (load ⨾ store 16)
