-- ===== src/Bitpacking/Impl/U64From17.antt =====
-- bitpacking_impl.h: the bodies of `vertical_bitpacking< uint64_t >::pack< 17 >` to `pack< 20 >`.
use tsubasa.Base.{List, repeat}
use tsubasa.Bitpacking.Code.{Statement}
use tsubasa.Bitpacking.Impl.Text.{◌⨾◌, load, shift_in, spill, store}

abbrev pub pack_uint64_17 : List Statement
pack_uint64_17 = repeat 1 (
    load
    ⨾ shift_in 17
    ⨾ shift_in 34
    ⨾ spill 51 13
    ⨾ shift_in 4
    ⨾ shift_in 21
    ⨾ shift_in 38
    ⨾ spill 55 9
    ⨾ shift_in 8
    ⨾ shift_in 25
    ⨾ shift_in 42
    ⨾ spill 59 5
    ⨾ shift_in 12
    ⨾ shift_in 29
    ⨾ shift_in 46
    ⨾ spill 63 1
    ⨾ shift_in 16
    ⨾ shift_in 33
    ⨾ spill 50 14
    ⨾ shift_in 3
    ⨾ shift_in 20
    ⨾ shift_in 37
    ⨾ spill 54 10
    ⨾ shift_in 7
    ⨾ shift_in 24
    ⨾ shift_in 41
    ⨾ spill 58 6
    ⨾ shift_in 11
    ⨾ shift_in 28
    ⨾ shift_in 45
    ⨾ spill 62 2
    ⨾ shift_in 15
    ⨾ shift_in 32
    ⨾ spill 49 15
    ⨾ shift_in 2
    ⨾ shift_in 19
    ⨾ shift_in 36
    ⨾ spill 53 11
    ⨾ shift_in 6
    ⨾ shift_in 23
    ⨾ shift_in 40
    ⨾ spill 57 7
    ⨾ shift_in 10
    ⨾ shift_in 27
    ⨾ shift_in 44
    ⨾ spill 61 3
    ⨾ shift_in 14
    ⨾ shift_in 31
    ⨾ spill 48 16
    ⨾ shift_in 1
    ⨾ shift_in 18
    ⨾ shift_in 35
    ⨾ spill 52 12
    ⨾ shift_in 5
    ⨾ shift_in 22
    ⨾ shift_in 39
    ⨾ spill 56 8
    ⨾ shift_in 9
    ⨾ shift_in 26
    ⨾ shift_in 43
    ⨾ spill 60 4
    ⨾ shift_in 13
    ⨾ shift_in 30
    ⨾ store 47)

abbrev pub pack_uint64_18 : List Statement
pack_uint64_18 = repeat 2 (
    load
    ⨾ shift_in 18
    ⨾ shift_in 36
    ⨾ spill 54 10
    ⨾ shift_in 8
    ⨾ shift_in 26
    ⨾ shift_in 44
    ⨾ spill 62 2
    ⨾ shift_in 16
    ⨾ shift_in 34
    ⨾ spill 52 12
    ⨾ shift_in 6
    ⨾ shift_in 24
    ⨾ shift_in 42
    ⨾ spill 60 4
    ⨾ shift_in 14
    ⨾ shift_in 32
    ⨾ spill 50 14
    ⨾ shift_in 4
    ⨾ shift_in 22
    ⨾ shift_in 40
    ⨾ spill 58 6
    ⨾ shift_in 12
    ⨾ shift_in 30
    ⨾ spill 48 16
    ⨾ shift_in 2
    ⨾ shift_in 20
    ⨾ shift_in 38
    ⨾ spill 56 8
    ⨾ shift_in 10
    ⨾ shift_in 28
    ⨾ store 46)

abbrev pub pack_uint64_19 : List Statement
pack_uint64_19 = repeat 1 (
    load
    ⨾ shift_in 19
    ⨾ shift_in 38
    ⨾ spill 57 7
    ⨾ shift_in 12
    ⨾ shift_in 31
    ⨾ spill 50 14
    ⨾ shift_in 5
    ⨾ shift_in 24
    ⨾ shift_in 43
    ⨾ spill 62 2
    ⨾ shift_in 17
    ⨾ shift_in 36
    ⨾ spill 55 9
    ⨾ shift_in 10
    ⨾ shift_in 29
    ⨾ spill 48 16
    ⨾ shift_in 3
    ⨾ shift_in 22
    ⨾ shift_in 41
    ⨾ spill 60 4
    ⨾ shift_in 15
    ⨾ shift_in 34
    ⨾ spill 53 11
    ⨾ shift_in 8
    ⨾ shift_in 27
    ⨾ spill 46 18
    ⨾ shift_in 1
    ⨾ shift_in 20
    ⨾ shift_in 39
    ⨾ spill 58 6
    ⨾ shift_in 13
    ⨾ shift_in 32
    ⨾ spill 51 13
    ⨾ shift_in 6
    ⨾ shift_in 25
    ⨾ shift_in 44
    ⨾ spill 63 1
    ⨾ shift_in 18
    ⨾ shift_in 37
    ⨾ spill 56 8
    ⨾ shift_in 11
    ⨾ shift_in 30
    ⨾ spill 49 15
    ⨾ shift_in 4
    ⨾ shift_in 23
    ⨾ shift_in 42
    ⨾ spill 61 3
    ⨾ shift_in 16
    ⨾ shift_in 35
    ⨾ spill 54 10
    ⨾ shift_in 9
    ⨾ shift_in 28
    ⨾ spill 47 17
    ⨾ shift_in 2
    ⨾ shift_in 21
    ⨾ shift_in 40
    ⨾ spill 59 5
    ⨾ shift_in 14
    ⨾ shift_in 33
    ⨾ spill 52 12
    ⨾ shift_in 7
    ⨾ shift_in 26
    ⨾ store 45)

abbrev pub pack_uint64_20 : List Statement
pack_uint64_20 = repeat 4 (
    load
    ⨾ shift_in 20
    ⨾ shift_in 40
    ⨾ spill 60 4
    ⨾ shift_in 16
    ⨾ shift_in 36
    ⨾ spill 56 8
    ⨾ shift_in 12
    ⨾ shift_in 32
    ⨾ spill 52 12
    ⨾ shift_in 8
    ⨾ shift_in 28
    ⨾ spill 48 16
    ⨾ shift_in 4
    ⨾ shift_in 24
    ⨾ store 44)
