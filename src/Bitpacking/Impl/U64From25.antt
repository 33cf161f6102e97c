-- ===== src/Bitpacking/Impl/U64From25.antt =====
-- bitpacking_impl.h: the bodies of `vertical_bitpacking< uint64_t >::pack< 25 >` to `pack< 28 >`.
use tsubasa.Base.{List, repeat}
use tsubasa.Bitpacking.Code.{Statement}
use tsubasa.Bitpacking.Impl.Text.{◌⨾◌, load, shift_in, spill, store}

abbrev pub pack_uint64_25 : List Statement
pack_uint64_25 = repeat 1 (
    load
    ⨾ shift_in 25
    ⨾ spill 50 14
    ⨾ shift_in 11
    ⨾ shift_in 36
    ⨾ spill 61 3
    ⨾ shift_in 22
    ⨾ spill 47 17
    ⨾ shift_in 8
    ⨾ shift_in 33
    ⨾ spill 58 6
    ⨾ shift_in 19
    ⨾ spill 44 20
    ⨾ shift_in 5
    ⨾ shift_in 30
    ⨾ spill 55 9
    ⨾ shift_in 16
    ⨾ spill 41 23
    ⨾ shift_in 2
    ⨾ shift_in 27
    ⨾ spill 52 12
    ⨾ shift_in 13
    ⨾ shift_in 38
    ⨾ spill 63 1
    ⨾ shift_in 24
    ⨾ spill 49 15
    ⨾ shift_in 10
    ⨾ shift_in 35
    ⨾ spill 60 4
    ⨾ shift_in 21
    ⨾ spill 46 18
    ⨾ shift_in 7
    ⨾ shift_in 32
    ⨾ spill 57 7
    ⨾ shift_in 18
    ⨾ spill 43 21
    ⨾ shift_in 4
    ⨾ shift_in 29
    ⨾ spill 54 10
    ⨾ shift_in 15
    ⨾ spill 40 24
    ⨾ shift_in 1
    ⨾ shift_in 26
    ⨾ spill 51 13
    ⨾ shift_in 12
    ⨾ shift_in 37
    ⨾ spill 62 2
    ⨾ shift_in 23
    ⨾ spill 48 16
    ⨾ shift_in 9
    ⨾ shift_in 34
    ⨾ spill 59 5
    ⨾ shift_in 20
    ⨾ spill 45 19
    ⨾ shift_in 6
    ⨾ shift_in 31
    ⨾ spill 56 8
    ⨾ shift_in 17
    ⨾ spill 42 22
    ⨾ shift_in 3
    ⨾ shift_in 28
    ⨾ spill 53 11
    ⨾ shift_in 14
    ⨾ store 39)

abbrev pub pack_uint64_26 : List Statement
pack_uint64_26 = repeat 2 (
    load
    ⨾ shift_in 26
    ⨾ spill 52 12
    ⨾ shift_in 14
    ⨾ spill 40 24
    ⨾ shift_in 2
    ⨾ shift_in 28
    ⨾ spill 54 10
    ⨾ shift_in 16
    ⨾ spill 42 22
    ⨾ shift_in 4
    ⨾ shift_in 30
    ⨾ spill 56 8
    ⨾ shift_in 18
    ⨾ spill 44 20
    ⨾ shift_in 6
    ⨾ shift_in 32
    ⨾ spill 58 6
    ⨾ shift_in 20
    ⨾ spill 46 18
    ⨾ shift_in 8
    ⨾ shift_in 34
    ⨾ spill 60 4
    ⨾ shift_in 22
    ⨾ spill 48 16
    ⨾ shift_in 10
    ⨾ shift_in 36
    ⨾ spill 62 2
    ⨾ shift_in 24
    ⨾ spill 50 14
    ⨾ shift_in 12
    ⨾ store 38)

abbrev pub pack_uint64_27 : List Statement
pack_uint64_27 = repeat 1 (
    load
    ⨾ shift_in 27
    ⨾ spill 54 10
    ⨾ shift_in 17
    ⨾ spill 44 20
    ⨾ shift_in 7
    ⨾ shift_in 34
    ⨾ spill 61 3
    ⨾ shift_in 24
    ⨾ spill 51 13
    ⨾ shift_in 14
    ⨾ spill 41 23
    ⨾ shift_in 4
    ⨾ shift_in 31
    ⨾ spill 58 6
    ⨾ shift_in 21
    ⨾ spill 48 16
    ⨾ shift_in 11
    ⨾ spill 38 26
    ⨾ shift_in 1
    ⨾ shift_in 28
    ⨾ spill 55 9
    ⨾ shift_in 18
    ⨾ spill 45 19
    ⨾ shift_in 8
    ⨾ shift_in 35
    ⨾ spill 62 2
    ⨾ shift_in 25
    ⨾ spill 52 12
    ⨾ shift_in 15
    ⨾ spill 42 22
    ⨾ shift_in 5
    ⨾ shift_in 32
    ⨾ spill 59 5
    ⨾ shift_in 22
    ⨾ spill 49 15
    ⨾ shift_in 12
    ⨾ spill 39 25
    ⨾ shift_in 2
    ⨾ shift_in 29
    ⨾ spill 56 8
    ⨾ shift_in 19
    ⨾ spill 46 18
    ⨾ shift_in 9
    ⨾ shift_in 36
    ⨾ spill 63 1
    ⨾ shift_in 26
    ⨾ spill 53 11
    ⨾ shift_in 16
    ⨾ spill 43 21
    ⨾ shift_in 6
    ⨾ shift_in 33
    ⨾ spill 60 4
    ⨾ shift_in 23
    ⨾ spill 50 14
    ⨾ shift_in 13
    ⨾ spill 40 24
    ⨾ shift_in 3
    ⨾ shift_in 30
    ⨾ spill 57 7
    ⨾ shift_in 20
    ⨾ spill 47 17
    ⨾ shift_in 10
    ⨾ store 37)

abbrev pub pack_uint64_28 : List Statement
pack_uint64_28 = repeat 4 (
    load
    ⨾ shift_in 28
    ⨾ spill 56 8
    ⨾ shift_in 20
    ⨾ spill 48 16
    ⨾ shift_in 12
    ⨾ spill 40 24
    ⨾ shift_in 4
    ⨾ shift_in 32
    ⨾ spill 60 4
    ⨾ shift_in 24
    ⨾ spill 52 12
    ⨾ shift_in 16
    ⨾ spill 44 20
    ⨾ shift_in 8
    ⨾ store 36)
