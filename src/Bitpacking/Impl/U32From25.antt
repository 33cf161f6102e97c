-- ===== src/Bitpacking/Impl/U32From25.antt =====
-- bitpacking_impl.h: the bodies of `vertical_bitpacking< uint32_t >::pack< 25 >` to `pack< 32 >`.
use tsubasa.Base.{List, repeat}
use tsubasa.Bitpacking.Code.{Statement}
use tsubasa.Bitpacking.Impl.Text.{◌⨾◌, load, plain, shift_in, spill, store}

abbrev pub pack_uint32_25 : List Statement
pack_uint32_25 = repeat 2 (
    load
    ⨾ spill 25 7
    ⨾ spill 18 14
    ⨾ spill 11 21
    ⨾ shift_in 4
    ⨾ spill 29 3
    ⨾ spill 22 10
    ⨾ spill 15 17
    ⨾ spill 8 24
    ⨾ shift_in 1
    ⨾ spill 26 6
    ⨾ spill 19 13
    ⨾ spill 12 20
    ⨾ shift_in 5
    ⨾ spill 30 2
    ⨾ spill 23 9
    ⨾ spill 16 16
    ⨾ spill 9 23
    ⨾ shift_in 2
    ⨾ spill 27 5
    ⨾ spill 20 12
    ⨾ spill 13 19
    ⨾ shift_in 6
    ⨾ spill 31 1
    ⨾ spill 24 8
    ⨾ spill 17 15
    ⨾ spill 10 22
    ⨾ shift_in 3
    ⨾ spill 28 4
    ⨾ spill 21 11
    ⨾ spill 14 18
    ⨾ store 7)

abbrev pub pack_uint32_26 : List Statement
pack_uint32_26 = repeat 4 (
    load
    ⨾ spill 26 6
    ⨾ spill 20 12
    ⨾ spill 14 18
    ⨾ spill 8 24
    ⨾ shift_in 2
    ⨾ spill 28 4
    ⨾ spill 22 10
    ⨾ spill 16 16
    ⨾ spill 10 22
    ⨾ shift_in 4
    ⨾ spill 30 2
    ⨾ spill 24 8
    ⨾ spill 18 14
    ⨾ spill 12 20
    ⨾ store 6)

abbrev pub pack_uint32_27 : List Statement
pack_uint32_27 = repeat 2 (
    load
    ⨾ spill 27 5
    ⨾ spill 22 10
    ⨾ spill 17 15
    ⨾ spill 12 20
    ⨾ spill 7 25
    ⨾ shift_in 2
    ⨾ spill 29 3
    ⨾ spill 24 8
    ⨾ spill 19 13
    ⨾ spill 14 18
    ⨾ spill 9 23
    ⨾ shift_in 4
    ⨾ spill 31 1
    ⨾ spill 26 6
    ⨾ spill 21 11
    ⨾ spill 16 16
    ⨾ spill 11 21
    ⨾ spill 6 26
    ⨾ shift_in 1
    ⨾ spill 28 4
    ⨾ spill 23 9
    ⨾ spill 18 14
    ⨾ spill 13 19
    ⨾ spill 8 24
    ⨾ shift_in 3
    ⨾ spill 30 2
    ⨾ spill 25 7
    ⨾ spill 20 12
    ⨾ spill 15 17
    ⨾ spill 10 22
    ⨾ store 5)

abbrev pub pack_uint32_28 : List Statement
pack_uint32_28 = repeat 8 (
    load ⨾ spill 28 4 ⨾ spill 24 8 ⨾ spill 20 12 ⨾ spill 16 16 ⨾ spill 12 20 ⨾ spill 8 24 ⨾ store 4)

abbrev pub pack_uint32_29 : List Statement
pack_uint32_29 = repeat 2 (
    load
    ⨾ spill 29 3
    ⨾ spill 26 6
    ⨾ spill 23 9
    ⨾ spill 20 12
    ⨾ spill 17 15
    ⨾ spill 14 18
    ⨾ spill 11 21
    ⨾ spill 8 24
    ⨾ spill 5 27
    ⨾ shift_in 2
    ⨾ spill 31 1
    ⨾ spill 28 4
    ⨾ spill 25 7
    ⨾ spill 22 10
    ⨾ spill 19 13
    ⨾ spill 16 16
    ⨾ spill 13 19
    ⨾ spill 10 22
    ⨾ spill 7 25
    ⨾ spill 4 28
    ⨾ shift_in 1
    ⨾ spill 30 2
    ⨾ spill 27 5
    ⨾ spill 24 8
    ⨾ spill 21 11
    ⨾ spill 18 14
    ⨾ spill 15 17
    ⨾ spill 12 20
    ⨾ spill 9 23
    ⨾ spill 6 26
    ⨾ store 3)

abbrev pub pack_uint32_30 : List Statement
pack_uint32_30 = repeat 4 (
    load
    ⨾ spill 30 2
    ⨾ spill 28 4
    ⨾ spill 26 6
    ⨾ spill 24 8
    ⨾ spill 22 10
    ⨾ spill 20 12
    ⨾ spill 18 14
    ⨾ spill 16 16
    ⨾ spill 14 18
    ⨾ spill 12 20
    ⨾ spill 10 22
    ⨾ spill 8 24
    ⨾ spill 6 26
    ⨾ spill 4 28
    ⨾ store 2)

abbrev pub pack_uint32_31 : List Statement
pack_uint32_31 = repeat 2 (
    load
    ⨾ spill 31 1
    ⨾ spill 30 2
    ⨾ spill 29 3
    ⨾ spill 28 4
    ⨾ spill 27 5
    ⨾ spill 26 6
    ⨾ spill 25 7
    ⨾ spill 24 8
    ⨾ spill 23 9
    ⨾ spill 22 10
    ⨾ spill 21 11
    ⨾ spill 20 12
    ⨾ spill 19 13
    ⨾ spill 18 14
    ⨾ spill 17 15
    ⨾ spill 16 16
    ⨾ spill 15 17
    ⨾ spill 14 18
    ⨾ spill 13 19
    ⨾ spill 12 20
    ⨾ spill 11 21
    ⨾ spill 10 22
    ⨾ spill 9 23
    ⨾ spill 8 24
    ⨾ spill 7 25
    ⨾ spill 6 26
    ⨾ spill 5 27
    ⨾ spill 4 28
    ⨾ spill 3 29
    ⨾ spill 2 30
    ⨾ store 1)

abbrev pub pack_uint32_32 : List Statement
pack_uint32_32 = repeat 64 (plain)
