-- ===== src/Bitpacking/Impl/U64From21.antt =====
-- bitpacking_impl.h: the bodies of `vertical_bitpacking< uint64_t >::pack< 21 >` to `pack< 24 >`.
use tsubasa.Base.{List, repeat}
use tsubasa.Bitpacking.Code.{Statement}
use tsubasa.Bitpacking.Impl.Text.{◌⨾◌, load, shift_in, spill, store}

abbrev pub pack_uint64_21 : List Statement
pack_uint64_21 = repeat 1 (
    load
    ⨾ shift_in 21
    ⨾ shift_in 42
    ⨾ spill 63 1
    ⨾ shift_in 20
    ⨾ shift_in 41
    ⨾ spill 62 2
    ⨾ shift_in 19
    ⨾ shift_in 40
    ⨾ spill 61 3
    ⨾ shift_in 18
    ⨾ shift_in 39
    ⨾ spill 60 4
    ⨾ shift_in 17
    ⨾ shift_in 38
    ⨾ spill 59 5
    ⨾ shift_in 16
    ⨾ shift_in 37
    ⨾ spill 58 6
    ⨾ shift_in 15
    ⨾ shift_in 36
    ⨾ spill 57 7
    ⨾ shift_in 14
    ⨾ shift_in 35
    ⨾ spill 56 8
    ⨾ shift_in 13
    ⨾ shift_in 34
    ⨾ spill 55 9
    ⨾ shift_in 12
    ⨾ shift_in 33
    ⨾ spill 54 10
    ⨾ shift_in 11
    ⨾ shift_in 32
    ⨾ spill 53 11
    ⨾ shift_in 10
    ⨾ shift_in 31
    ⨾ spill 52 12
    ⨾ shift_in 9
    ⨾ shift_in 30
    ⨾ spill 51 13
    ⨾ shift_in 8
    ⨾ shift_in 29
    ⨾ spill 50 14
    ⨾ shift_in 7
    ⨾ shift_in 28
    ⨾ spill 49 15
    ⨾ shift_in 6
    ⨾ shift_in 27
    ⨾ spill 48 16
    ⨾ shift_in 5
    ⨾ shift_in 26
    ⨾ spill 47 17
    ⨾ shift_in 4
    ⨾ shift_in 25
    ⨾ spill 46 18
    ⨾ shift_in 3
    ⨾ shift_in 24
    ⨾ spill 45 19
    ⨾ shift_in 2
    ⨾ shift_in 23
    ⨾ spill 44 20
    ⨾ shift_in 1
    ⨾ shift_in 22
    ⨾ store 43)

abbrev pub pack_uint64_22 : List Statement
pack_uint64_22 = repeat 2 (
    load
    ⨾ shift_in 22
    ⨾ spill 44 20
    ⨾ shift_in 2
    ⨾ shift_in 24
    ⨾ spill 46 18
    ⨾ shift_in 4
    ⨾ shift_in 26
    ⨾ spill 48 16
    ⨾ shift_in 6
    ⨾ shift_in 28
    ⨾ spill 50 14
    ⨾ shift_in 8
    ⨾ shift_in 30
    ⨾ spill 52 12
    ⨾ shift_in 10
    ⨾ shift_in 32
    ⨾ spill 54 10
    ⨾ shift_in 12
    ⨾ shift_in 34
    ⨾ spill 56 8
    ⨾ shift_in 14
    ⨾ shift_in 36
    ⨾ spill 58 6
    ⨾ shift_in 16
    ⨾ shift_in 38
    ⨾ spill 60 4
    ⨾ shift_in 18
    ⨾ shift_in 40
    ⨾ spill 62 2
    ⨾ shift_in 20
    ⨾ store 42)

abbrev pub pack_uint64_23 : List Statement
pack_uint64_23 = repeat 1 (
    load
    ⨾ shift_in 23
    ⨾ spill 46 18
    ⨾ shift_in 5
    ⨾ shift_in 28
    ⨾ spill 51 13
    ⨾ shift_in 10
    ⨾ shift_in 33
    ⨾ spill 56 8
    ⨾ shift_in 15
    ⨾ shift_in 38
    ⨾ spill 61 3
    ⨾ shift_in 20
    ⨾ spill 43 21
    ⨾ shift_in 2
    ⨾ shift_in 25
    ⨾ spill 48 16
    ⨾ shift_in 7
    ⨾ shift_in 30
    ⨾ spill 53 11
    ⨾ shift_in 12
    ⨾ shift_in 35
    ⨾ spill 58 6
    ⨾ shift_in 17
    ⨾ shift_in 40
    ⨾ spill 63 1
    ⨾ shift_in 22
    ⨾ spill 45 19
    ⨾ shift_in 4
    ⨾ shift_in 27
    ⨾ spill 50 14
    ⨾ shift_in 9
    ⨾ shift_in 32
    ⨾ spill 55 9
    ⨾ shift_in 14
    ⨾ shift_in 37
    ⨾ spill 60 4
    ⨾ shift_in 19
    ⨾ spill 42 22
    ⨾ shift_in 1
    ⨾ shift_in 24
    ⨾ spill 47 17
    ⨾ shift_in 6
    ⨾ shift_in 29
    ⨾ spill 52 12
    ⨾ shift_in 11
    ⨾ shift_in 34
    ⨾ spill 57 7
    ⨾ shift_in 16
    ⨾ shift_in 39
    ⨾ spill 62 2
    ⨾ shift_in 21
    ⨾ spill 44 20
    ⨾ shift_in 3
    ⨾ shift_in 26
    ⨾ spill 49 15
    ⨾ shift_in 8
    ⨾ shift_in 31
    ⨾ spill 54 10
    ⨾ shift_in 13
    ⨾ shift_in 36
    ⨾ spill 59 5
    ⨾ shift_in 18
    ⨾ store 41)

abbrev pub pack_uint64_24 : List Statement
pack_uint64_24 = repeat 8 (
    load
    ⨾ shift_in 24
    ⨾ spill 48 16
    ⨾ shift_in 8
    ⨾ shift_in 32
    ⨾ spill 56 8
    ⨾ shift_in 16
    ⨾ store 40)
