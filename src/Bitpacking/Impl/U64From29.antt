-- ===== src/Bitpacking/Impl/U64From29.antt =====
-- bitpacking_impl.h: the bodies of `vertical_bitpacking< uint64_t >::pack< 29 >` to `pack< 32 >`.
use tsubasa.Base.{List, repeat}
use tsubasa.Bitpacking.Code.{Statement}
use tsubasa.Bitpacking.Impl.Text.{◌⨾◌, load, shift_in, spill, store}

abbrev pub pack_uint64_29 : List Statement
pack_uint64_29 = repeat 1 (
    load
    ⨾ shift_in 29
    ⨾ spill 58 6
    ⨾ shift_in 23
    ⨾ spill 52 12
    ⨾ shift_in 17
    ⨾ spill 46 18
    ⨾ shift_in 11
    ⨾ spill 40 24
    ⨾ shift_in 5
    ⨾ shift_in 34
    ⨾ spill 63 1
    ⨾ shift_in 28
    ⨾ spill 57 7
    ⨾ shift_in 22
    ⨾ spill 51 13
    ⨾ shift_in 16
    ⨾ spill 45 19
    ⨾ shift_in 10
    ⨾ spill 39 25
    ⨾ shift_in 4
    ⨾ shift_in 33
    ⨾ spill 62 2
    ⨾ shift_in 27
    ⨾ spill 56 8
    ⨾ shift_in 21
    ⨾ spill 50 14
    ⨾ shift_in 15
    ⨾ spill 44 20
    ⨾ shift_in 9
    ⨾ spill 38 26
    ⨾ shift_in 3
    ⨾ shift_in 32
    ⨾ spill 61 3
    ⨾ shift_in 26
    ⨾ spill 55 9
    ⨾ shift_in 20
    ⨾ spill 49 15
    ⨾ shift_in 14
    ⨾ spill 43 21
    ⨾ shift_in 8
    ⨾ spill 37 27
    ⨾ shift_in 2
    ⨾ shift_in 31
    ⨾ spill 60 4
    ⨾ shift_in 25
    ⨾ spill 54 10
    ⨾ shift_in 19
    ⨾ spill 48 16
    ⨾ shift_in 13
    ⨾ spill 42 22
    ⨾ shift_in 7
    ⨾ spill 36 28
    ⨾ shift_in 1
    ⨾ shift_in 30
    ⨾ spill 59 5
    ⨾ shift_in 24
    ⨾ spill 53 11
    ⨾ shift_in 18
    ⨾ spill 47 17
    ⨾ shift_in 12
    ⨾ spill 41 23
    ⨾ shift_in 6
    ⨾ store 35)

abbrev pub pack_uint64_30 : List Statement
pack_uint64_30 = repeat 2 (
    load
    ⨾ shift_in 30
    ⨾ spill 60 4
    ⨾ shift_in 26
    ⨾ spill 56 8
    ⨾ shift_in 22
    ⨾ spill 52 12
    ⨾ shift_in 18
    ⨾ spill 48 16
    ⨾ shift_in 14
    ⨾ spill 44 20
    ⨾ shift_in 10
    ⨾ spill 40 24
    ⨾ shift_in 6
    ⨾ spill 36 28
    ⨾ shift_in 2
    ⨾ shift_in 32
    ⨾ spill 62 2
    ⨾ shift_in 28
    ⨾ spill 58 6
    ⨾ shift_in 24
    ⨾ spill 54 10
    ⨾ shift_in 20
    ⨾ spill 50 14
    ⨾ shift_in 16
    ⨾ spill 46 18
    ⨾ shift_in 12
    ⨾ spill 42 22
    ⨾ shift_in 8
    ⨾ spill 38 26
    ⨾ shift_in 4
    ⨾ store 34)

abbrev pub pack_uint64_31 : List Statement
pack_uint64_31 = repeat 1 (
    load
    ⨾ shift_in 31
    ⨾ spill 62 2
    ⨾ shift_in 29
    ⨾ spill 60 4
    ⨾ shift_in 27
    ⨾ spill 58 6
    ⨾ shift_in 25
    ⨾ spill 56 8
    ⨾ shift_in 23
    ⨾ spill 54 10
    ⨾ shift_in 21
    ⨾ spill 52 12
    ⨾ shift_in 19
    ⨾ spill 50 14
    ⨾ shift_in 17
    ⨾ spill 48 16
    ⨾ shift_in 15
    ⨾ spill 46 18
    ⨾ shift_in 13
    ⨾ spill 44 20
    ⨾ shift_in 11
    ⨾ spill 42 22
    ⨾ shift_in 9
    ⨾ spill 40 24
    ⨾ shift_in 7
    ⨾ spill 38 26
    ⨾ shift_in 5
    ⨾ spill 36 28
    ⨾ shift_in 3
    ⨾ spill 34 30
    ⨾ shift_in 1
    ⨾ shift_in 32
    ⨾ spill 63 1
    ⨾ shift_in 30
    ⨾ spill 61 3
    ⨾ shift_in 28
    ⨾ spill 59 5
    ⨾ shift_in 26
    ⨾ spill 57 7
    ⨾ shift_in 24
    ⨾ spill 55 9
    ⨾ shift_in 22
    ⨾ spill 53 11
    ⨾ shift_in 20
    ⨾ spill 51 13
    ⨾ shift_in 18
    ⨾ spill 49 15
    ⨾ shift_in 16
    ⨾ spill 47 17
    ⨾ shift_in 14
    ⨾ spill 45 19
    ⨾ shift_in 12
    ⨾ spill 43 21
    ⨾ shift_in 10
    ⨾ spill 41 23
    ⨾ shift_in 8
    ⨾ spill 39 25
    ⨾ shift_in 6
    ⨾ spill 37 27
    ⨾ shift_in 4
    ⨾ spill 35 29
    ⨾ shift_in 2
    ⨾ store 33)

abbrev pub pack_uint64_32 : List Statement
pack_uint64_32 = repeat 32 (load ⨾ store 32)
