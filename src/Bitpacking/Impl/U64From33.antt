-- ===== src/Bitpacking/Impl/U64From33.antt =====
-- bitpacking_impl.h: the bodies of `vertical_bitpacking< uint64_t >::pack< 33 >` to `pack< 36 >`.
use tsubasa.Base.{List, repeat}
use tsubasa.Bitpacking.Code.{Statement}
use tsubasa.Bitpacking.Impl.Text.{◌⨾◌, load, shift_in, spill, store}

abbrev pub pack_uint64_33 : List Statement
pack_uint64_33 = repeat 1 (
    load
    ⨾ spill 33 31
    ⨾ shift_in 2
    ⨾ spill 35 29
    ⨾ shift_in 4
    ⨾ spill 37 27
    ⨾ shift_in 6
    ⨾ spill 39 25
    ⨾ shift_in 8
    ⨾ spill 41 23
    ⨾ shift_in 10
    ⨾ spill 43 21
    ⨾ shift_in 12
    ⨾ spill 45 19
    ⨾ shift_in 14
    ⨾ spill 47 17
    ⨾ shift_in 16
    ⨾ spill 49 15
    ⨾ shift_in 18
    ⨾ spill 51 13
    ⨾ shift_in 20
    ⨾ spill 53 11
    ⨾ shift_in 22
    ⨾ spill 55 9
    ⨾ shift_in 24
    ⨾ spill 57 7
    ⨾ shift_in 26
    ⨾ spill 59 5
    ⨾ shift_in 28
    ⨾ spill 61 3
    ⨾ shift_in 30
    ⨾ spill 63 1
    ⨾ spill 32 32
    ⨾ shift_in 1
    ⨾ spill 34 30
    ⨾ shift_in 3
    ⨾ spill 36 28
    ⨾ shift_in 5
    ⨾ spill 38 26
    ⨾ shift_in 7
    ⨾ spill 40 24
    ⨾ shift_in 9
    ⨾ spill 42 22
    ⨾ shift_in 11
    ⨾ spill 44 20
    ⨾ shift_in 13
    ⨾ spill 46 18
    ⨾ shift_in 15
    ⨾ spill 48 16
    ⨾ shift_in 17
    ⨾ spill 50 14
    ⨾ shift_in 19
    ⨾ spill 52 12
    ⨾ shift_in 21
    ⨾ spill 54 10
    ⨾ shift_in 23
    ⨾ spill 56 8
    ⨾ shift_in 25
    ⨾ spill 58 6
    ⨾ shift_in 27
    ⨾ spill 60 4
    ⨾ shift_in 29
    ⨾ spill 62 2
    ⨾ store 31)

abbrev pub pack_uint64_34 : List Statement
pack_uint64_34 = repeat 2 (
    load
    ⨾ spill 34 30
    ⨾ shift_in 4
    ⨾ spill 38 26
    ⨾ shift_in 8
    ⨾ spill 42 22
    ⨾ shift_in 12
    ⨾ spill 46 18
    ⨾ shift_in 16
    ⨾ spill 50 14
    ⨾ shift_in 20
    ⨾ spill 54 10
    ⨾ shift_in 24
    ⨾ spill 58 6
    ⨾ shift_in 28
    ⨾ spill 62 2
    ⨾ spill 32 32
    ⨾ shift_in 2
    ⨾ spill 36 28
    ⨾ shift_in 6
    ⨾ spill 40 24
    ⨾ shift_in 10
    ⨾ spill 44 20
    ⨾ shift_in 14
    ⨾ spill 48 16
    ⨾ shift_in 18
    ⨾ spill 52 12
    ⨾ shift_in 22
    ⨾ spill 56 8
    ⨾ shift_in 26
    ⨾ spill 60 4
    ⨾ store 30)

abbrev pub pack_uint64_35 : List Statement
pack_uint64_35 = repeat 1 (
    load
    ⨾ spill 35 29
    ⨾ shift_in 6
    ⨾ spill 41 23
    ⨾ shift_in 12
    ⨾ spill 47 17
    ⨾ shift_in 18
    ⨾ spill 53 11
    ⨾ shift_in 24
    ⨾ spill 59 5
    ⨾ spill 30 34
    ⨾ shift_in 1
    ⨾ spill 36 28
    ⨾ shift_in 7
    ⨾ spill 42 22
    ⨾ shift_in 13
    ⨾ spill 48 16
    ⨾ shift_in 19
    ⨾ spill 54 10
    ⨾ shift_in 25
    ⨾ spill 60 4
    ⨾ spill 31 33
    ⨾ shift_in 2
    ⨾ spill 37 27
    ⨾ shift_in 8
    ⨾ spill 43 21
    ⨾ shift_in 14
    ⨾ spill 49 15
    ⨾ shift_in 20
    ⨾ spill 55 9
    ⨾ shift_in 26
    ⨾ spill 61 3
    ⨾ spill 32 32
    ⨾ shift_in 3
    ⨾ spill 38 26
    ⨾ shift_in 9
    ⨾ spill 44 20
    ⨾ shift_in 15
    ⨾ spill 50 14
    ⨾ shift_in 21
    ⨾ spill 56 8
    ⨾ shift_in 27
    ⨾ spill 62 2
    ⨾ spill 33 31
    ⨾ shift_in 4
    ⨾ spill 39 25
    ⨾ shift_in 10
    ⨾ spill 45 19
    ⨾ shift_in 16
    ⨾ spill 51 13
    ⨾ shift_in 22
    ⨾ spill 57 7
    ⨾ shift_in 28
    ⨾ spill 63 1
    ⨾ spill 34 30
    ⨾ shift_in 5
    ⨾ spill 40 24
    ⨾ shift_in 11
    ⨾ spill 46 18
    ⨾ shift_in 17
    ⨾ spill 52 12
    ⨾ shift_in 23
    ⨾ spill 58 6
    ⨾ store 29)

abbrev pub pack_uint64_36 : List Statement
pack_uint64_36 = repeat 4 (
    load
    ⨾ spill 36 28
    ⨾ shift_in 8
    ⨾ spill 44 20
    ⨾ shift_in 16
    ⨾ spill 52 12
    ⨾ shift_in 24
    ⨾ spill 60 4
    ⨾ spill 32 32
    ⨾ shift_in 4
    ⨾ spill 40 24
    ⨾ shift_in 12
    ⨾ spill 48 16
    ⨾ shift_in 20
    ⨾ spill 56 8
    ⨾ store 28)
