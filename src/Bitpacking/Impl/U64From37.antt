-- ===== src/Bitpacking/Impl/U64From37.antt =====
-- bitpacking_impl.h: the bodies of `vertical_bitpacking< uint64_t >::pack< 37 >` to `pack< 40 >`.
use tsubasa.Base.{List, repeat}
use tsubasa.Bitpacking.Code.{Statement}
use tsubasa.Bitpacking.Impl.Text.{◌⨾◌, load, shift_in, spill, store}

abbrev pub pack_uint64_37 : List Statement
pack_uint64_37 = repeat 1 (
    load
    ⨾ spill 37 27
    ⨾ shift_in 10
    ⨾ spill 47 17
    ⨾ shift_in 20
    ⨾ spill 57 7
    ⨾ spill 30 34
    ⨾ shift_in 3
    ⨾ spill 40 24
    ⨾ shift_in 13
    ⨾ spill 50 14
    ⨾ shift_in 23
    ⨾ spill 60 4
    ⨾ spill 33 31
    ⨾ shift_in 6
    ⨾ spill 43 21
    ⨾ shift_in 16
    ⨾ spill 53 11
    ⨾ shift_in 26
    ⨾ spill 63 1
    ⨾ spill 36 28
    ⨾ shift_in 9
    ⨾ spill 46 18
    ⨾ shift_in 19
    ⨾ spill 56 8
    ⨾ spill 29 35
    ⨾ shift_in 2
    ⨾ spill 39 25
    ⨾ shift_in 12
    ⨾ spill 49 15
    ⨾ shift_in 22
    ⨾ spill 59 5
    ⨾ spill 32 32
    ⨾ shift_in 5
    ⨾ spill 42 22
    ⨾ shift_in 15
    ⨾ spill 52 12
    ⨾ shift_in 25
    ⨾ spill 62 2
    ⨾ spill 35 29
    ⨾ shift_in 8
    ⨾ spill 45 19
    ⨾ shift_in 18
    ⨾ spill 55 9
    ⨾ spill 28 36
    ⨾ shift_in 1
    ⨾ spill 38 26
    ⨾ shift_in 11
    ⨾ spill 48 16
    ⨾ shift_in 21
    ⨾ spill 58 6
    ⨾ spill 31 33
    ⨾ shift_in 4
    ⨾ spill 41 23
    ⨾ shift_in 14
    ⨾ spill 51 13
    ⨾ shift_in 24
    ⨾ spill 61 3
    ⨾ spill 34 30
    ⨾ shift_in 7
    ⨾ spill 44 20
    ⨾ shift_in 17
    ⨾ spill 54 10
    ⨾ store 27)

abbrev pub pack_uint64_38 : List Statement
pack_uint64_38 = repeat 2 (
    load
    ⨾ spill 38 26
    ⨾ shift_in 12
    ⨾ spill 50 14
    ⨾ shift_in 24
    ⨾ spill 62 2
    ⨾ spill 36 28
    ⨾ shift_in 10
    ⨾ spill 48 16
    ⨾ shift_in 22
    ⨾ spill 60 4
    ⨾ spill 34 30
    ⨾ shift_in 8
    ⨾ spill 46 18
    ⨾ shift_in 20
    ⨾ spill 58 6
    ⨾ spill 32 32
    ⨾ shift_in 6
    ⨾ spill 44 20
    ⨾ shift_in 18
    ⨾ spill 56 8
    ⨾ spill 30 34
    ⨾ shift_in 4
    ⨾ spill 42 22
    ⨾ shift_in 16
    ⨾ spill 54 10
    ⨾ spill 28 36
    ⨾ shift_in 2
    ⨾ spill 40 24
    ⨾ shift_in 14
    ⨾ spill 52 12
    ⨾ store 26)

abbrev pub pack_uint64_39 : List Statement
pack_uint64_39 = repeat 1 (
    load
    ⨾ spill 39 25
    ⨾ shift_in 14
    ⨾ spill 53 11
    ⨾ spill 28 36
    ⨾ shift_in 3
    ⨾ spill 42 22
    ⨾ shift_in 17
    ⨾ spill 56 8
    ⨾ spill 31 33
    ⨾ shift_in 6
    ⨾ spill 45 19
    ⨾ shift_in 20
    ⨾ spill 59 5
    ⨾ spill 34 30
    ⨾ shift_in 9
    ⨾ spill 48 16
    ⨾ shift_in 23
    ⨾ spill 62 2
    ⨾ spill 37 27
    ⨾ shift_in 12
    ⨾ spill 51 13
    ⨾ spill 26 38
    ⨾ shift_in 1
    ⨾ spill 40 24
    ⨾ shift_in 15
    ⨾ spill 54 10
    ⨾ spill 29 35
    ⨾ shift_in 4
    ⨾ spill 43 21
    ⨾ shift_in 18
    ⨾ spill 57 7
    ⨾ spill 32 32
    ⨾ shift_in 7
    ⨾ spill 46 18
    ⨾ shift_in 21
    ⨾ spill 60 4
    ⨾ spill 35 29
    ⨾ shift_in 10
    ⨾ spill 49 15
    ⨾ shift_in 24
    ⨾ spill 63 1
    ⨾ spill 38 26
    ⨾ shift_in 13
    ⨾ spill 52 12
    ⨾ spill 27 37
    ⨾ shift_in 2
    ⨾ spill 41 23
    ⨾ shift_in 16
    ⨾ spill 55 9
    ⨾ spill 30 34
    ⨾ shift_in 5
    ⨾ spill 44 20
    ⨾ shift_in 19
    ⨾ spill 58 6
    ⨾ spill 33 31
    ⨾ shift_in 8
    ⨾ spill 47 17
    ⨾ shift_in 22
    ⨾ spill 61 3
    ⨾ spill 36 28
    ⨾ shift_in 11
    ⨾ spill 50 14
    ⨾ store 25)

abbrev pub pack_uint64_40 : List Statement
pack_uint64_40 = repeat 8 (
    load
    ⨾ spill 40 24
    ⨾ shift_in 16
    ⨾ spill 56 8
    ⨾ spill 32 32
    ⨾ shift_in 8
    ⨾ spill 48 16
    ⨾ store 24)
