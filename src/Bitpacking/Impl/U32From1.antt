-- ===== src/Bitpacking/Impl/U32From1.antt =====
-- bitpacking_impl.h: the bodies of `vertical_bitpacking< uint32_t >::pack< 1 >` to `pack< 8 >`.
use tsubasa.Base.{List, repeat}
use tsubasa.Bitpacking.Code.{Statement}
use tsubasa.Bitpacking.Impl.Text.{◌⨾◌, load, shift_in, spill, store}

abbrev pub pack_uint32_1 : List Statement
pack_uint32_1 = repeat 2 (
    load
    ⨾ shift_in 1
    ⨾ shift_in 2
    ⨾ shift_in 3
    ⨾ shift_in 4
    ⨾ shift_in 5
    ⨾ shift_in 6
    ⨾ shift_in 7
    ⨾ shift_in 8
    ⨾ shift_in 9
    ⨾ shift_in 10
    ⨾ shift_in 11
    ⨾ shift_in 12
    ⨾ shift_in 13
    ⨾ shift_in 14
    ⨾ shift_in 15
    ⨾ shift_in 16
    ⨾ shift_in 17
    ⨾ shift_in 18
    ⨾ shift_in 19
    ⨾ shift_in 20
    ⨾ shift_in 21
    ⨾ shift_in 22
    ⨾ shift_in 23
    ⨾ shift_in 24
    ⨾ shift_in 25
    ⨾ shift_in 26
    ⨾ shift_in 27
    ⨾ shift_in 28
    ⨾ shift_in 29
    ⨾ shift_in 30
    ⨾ store 31)

abbrev pub pack_uint32_2 : List Statement
pack_uint32_2 = repeat 4 (
    load
    ⨾ shift_in 2
    ⨾ shift_in 4
    ⨾ shift_in 6
    ⨾ shift_in 8
    ⨾ shift_in 10
    ⨾ shift_in 12
    ⨾ shift_in 14
    ⨾ shift_in 16
    ⨾ shift_in 18
    ⨾ shift_in 20
    ⨾ shift_in 22
    ⨾ shift_in 24
    ⨾ shift_in 26
    ⨾ shift_in 28
    ⨾ store 30)

abbrev pub pack_uint32_3 : List Statement
pack_uint32_3 = repeat 2 (
    load
    ⨾ shift_in 3
    ⨾ shift_in 6
    ⨾ shift_in 9
    ⨾ shift_in 12
    ⨾ shift_in 15
    ⨾ shift_in 18
    ⨾ shift_in 21
    ⨾ shift_in 24
    ⨾ shift_in 27
    ⨾ spill 30 2
    ⨾ shift_in 1
    ⨾ shift_in 4
    ⨾ shift_in 7
    ⨾ shift_in 10
    ⨾ shift_in 13
    ⨾ shift_in 16
    ⨾ shift_in 19
    ⨾ shift_in 22
    ⨾ shift_in 25
    ⨾ shift_in 28
    ⨾ spill 31 1
    ⨾ shift_in 2
    ⨾ shift_in 5
    ⨾ shift_in 8
    ⨾ shift_in 11
    ⨾ shift_in 14
    ⨾ shift_in 17
    ⨾ shift_in 20
    ⨾ shift_in 23
    ⨾ shift_in 26
    ⨾ store 29)

abbrev pub pack_uint32_4 : List Statement
pack_uint32_4 = repeat 8 (
    load
    ⨾ shift_in 4
    ⨾ shift_in 8
    ⨾ shift_in 12
    ⨾ shift_in 16
    ⨾ shift_in 20
    ⨾ shift_in 24
    ⨾ store 28)

abbrev pub pack_uint32_5 : List Statement
pack_uint32_5 = repeat 2 (
    load
    ⨾ shift_in 5
    ⨾ shift_in 10
    ⨾ shift_in 15
    ⨾ shift_in 20
    ⨾ shift_in 25
    ⨾ spill 30 2
    ⨾ shift_in 3
    ⨾ shift_in 8
    ⨾ shift_in 13
    ⨾ shift_in 18
    ⨾ shift_in 23
    ⨾ spill 28 4
    ⨾ shift_in 1
    ⨾ shift_in 6
    ⨾ shift_in 11
    ⨾ shift_in 16
    ⨾ shift_in 21
    ⨾ shift_in 26
    ⨾ spill 31 1
    ⨾ shift_in 4
    ⨾ shift_in 9
    ⨾ shift_in 14
    ⨾ shift_in 19
    ⨾ shift_in 24
    ⨾ spill 29 3
    ⨾ shift_in 2
    ⨾ shift_in 7
    ⨾ shift_in 12
    ⨾ shift_in 17
    ⨾ shift_in 22
    ⨾ store 27)

abbrev pub pack_uint32_6 : List Statement
pack_uint32_6 = repeat 4 (
    load
    ⨾ shift_in 6
    ⨾ shift_in 12
    ⨾ shift_in 18
    ⨾ shift_in 24
    ⨾ spill 30 2
    ⨾ shift_in 4
    ⨾ shift_in 10
    ⨾ shift_in 16
    ⨾ shift_in 22
    ⨾ spill 28 4
    ⨾ shift_in 2
    ⨾ shift_in 8
    ⨾ shift_in 14
    ⨾ shift_in 20
    ⨾ store 26)

abbrev pub pack_uint32_7 : List Statement
pack_uint32_7 = repeat 2 (
    load
    ⨾ shift_in 7
    ⨾ shift_in 14
    ⨾ shift_in 21
    ⨾ spill 28 4
    ⨾ shift_in 3
    ⨾ shift_in 10
    ⨾ shift_in 17
    ⨾ shift_in 24
    ⨾ spill 31 1
    ⨾ shift_in 6
    ⨾ shift_in 13
    ⨾ shift_in 20
    ⨾ spill 27 5
    ⨾ shift_in 2
    ⨾ shift_in 9
    ⨾ shift_in 16
    ⨾ shift_in 23
    ⨾ spill 30 2
    ⨾ shift_in 5
    ⨾ shift_in 12
    ⨾ shift_in 19
    ⨾ spill 26 6
    ⨾ shift_in 1
    ⨾ shift_in 8
    ⨾ shift_in 15
    ⨾ shift_in 22
    ⨾ spill 29 3
    ⨾ shift_in 4
    ⨾ shift_in 11
    ⨾ shift_in 18
    ⨾ store 25)

abbrev pub pack_uint32_8 : List Statement
pack_uint32_8 = repeat 16 (load ⨾ shift_in 8 ⨾ shift_in 16 ⨾ store 24)
