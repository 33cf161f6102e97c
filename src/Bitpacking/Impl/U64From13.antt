-- ===== src/Bitpacking/Impl/U64From13.antt =====
-- bitpacking_impl.h: the bodies of `vertical_bitpacking< uint64_t >::pack< 13 >` to `pack< 16 >`.
use tsubasa.Base.{List, repeat}
use tsubasa.Bitpacking.Code.{Statement}
use tsubasa.Bitpacking.Impl.Text.{◌⨾◌, load, shift_in, spill, store}

abbrev pub pack_uint64_13 : List Statement
pack_uint64_13 = repeat 1 (
    load
    ⨾ shift_in 13
    ⨾ shift_in 26
    ⨾ shift_in 39
    ⨾ spill 52 12
    ⨾ shift_in 1
    ⨾ shift_in 14
    ⨾ shift_in 27
    ⨾ shift_in 40
    ⨾ spill 53 11
    ⨾ shift_in 2
    ⨾ shift_in 15
    ⨾ shift_in 28
    ⨾ shift_in 41
    ⨾ spill 54 10
    ⨾ shift_in 3
    ⨾ shift_in 16
    ⨾ shift_in 29
    ⨾ shift_in 42
    ⨾ spill 55 9
    ⨾ shift_in 4
    ⨾ shift_in 17
    ⨾ shift_in 30
    ⨾ shift_in 43
    ⨾ spill 56 8
    ⨾ shift_in 5
    ⨾ shift_in 18
    ⨾ shift_in 31
    ⨾ shift_in 44
    ⨾ spill 57 7
    ⨾ shift_in 6
    ⨾ shift_in 19
    ⨾ shift_in 32
    ⨾ shift_in 45
    ⨾ spill 58 6
    ⨾ shift_in 7
    ⨾ shift_in 20
    ⨾ shift_in 33
    ⨾ shift_in 46
    ⨾ spill 59 5
    ⨾ shift_in 8
    ⨾ shift_in 21
    ⨾ shift_in 34
    ⨾ shift_in 47
    ⨾ spill 60 4
    ⨾ shift_in 9
    ⨾ shift_in 22
    ⨾ shift_in 35
    ⨾ shift_in 48
    ⨾ spill 61 3
    ⨾ shift_in 10
    ⨾ shift_in 23
    ⨾ shift_in 36
    ⨾ shift_in 49
    ⨾ spill 62 2
    ⨾ shift_in 11
    ⨾ shift_in 24
    ⨾ shift_in 37
    ⨾ shift_in 50
    ⨾ spill 63 1
    ⨾ shift_in 12
    ⨾ shift_in 25
    ⨾ shift_in 38
    ⨾ store 51)

abbrev pub pack_uint64_14 : List Statement
pack_uint64_14 = repeat 2 (
    load
    ⨾ shift_in 14
    ⨾ shift_in 28
    ⨾ shift_in 42
    ⨾ spill 56 8
    ⨾ shift_in 6
    ⨾ shift_in 20
    ⨾ shift_in 34
    ⨾ shift_in 48
    ⨾ spill 62 2
    ⨾ shift_in 12
    ⨾ shift_in 26
    ⨾ shift_in 40
    ⨾ spill 54 10
    ⨾ shift_in 4
    ⨾ shift_in 18
    ⨾ shift_in 32
    ⨾ shift_in 46
    ⨾ spill 60 4
    ⨾ shift_in 10
    ⨾ shift_in 24
    ⨾ shift_in 38
    ⨾ spill 52 12
    ⨾ shift_in 2
    ⨾ shift_in 16
    ⨾ shift_in 30
    ⨾ shift_in 44
    ⨾ spill 58 6
    ⨾ shift_in 8
    ⨾ shift_in 22
    ⨾ shift_in 36
    ⨾ store 50)

abbrev pub pack_uint64_15 : List Statement
pack_uint64_15 = repeat 1 (
    load
    ⨾ shift_in 15
    ⨾ shift_in 30
    ⨾ shift_in 45
    ⨾ spill 60 4
    ⨾ shift_in 11
    ⨾ shift_in 26
    ⨾ shift_in 41
    ⨾ spill 56 8
    ⨾ shift_in 7
    ⨾ shift_in 22
    ⨾ shift_in 37
    ⨾ spill 52 12
    ⨾ shift_in 3
    ⨾ shift_in 18
    ⨾ shift_in 33
    ⨾ shift_in 48
    ⨾ spill 63 1
    ⨾ shift_in 14
    ⨾ shift_in 29
    ⨾ shift_in 44
    ⨾ spill 59 5
    ⨾ shift_in 10
    ⨾ shift_in 25
    ⨾ shift_in 40
    ⨾ spill 55 9
    ⨾ shift_in 6
    ⨾ shift_in 21
    ⨾ shift_in 36
    ⨾ spill 51 13
    ⨾ shift_in 2
    ⨾ shift_in 17
    ⨾ shift_in 32
    ⨾ shift_in 47
    ⨾ spill 62 2
    ⨾ shift_in 13
    ⨾ shift_in 28
    ⨾ shift_in 43
    ⨾ spill 58 6
    ⨾ shift_in 9
    ⨾ shift_in 24
    ⨾ shift_in 39
    ⨾ spill 54 10
    ⨾ shift_in 5
    ⨾ shift_in 20
    ⨾ shift_in 35
    ⨾ spill 50 14
    ⨾ shift_in 1
    ⨾ shift_in 16
    ⨾ shift_in 31
    ⨾ shift_in 46
    ⨾ spill 61 3
    ⨾ shift_in 12
    ⨾ shift_in 27
    ⨾ shift_in 42
    ⨾ spill 57 7
    ⨾ shift_in 8
    ⨾ shift_in 23
    ⨾ shift_in 38
    ⨾ spill 53 11
    ⨾ shift_in 4
    ⨾ shift_in 19
    ⨾ shift_in 34
    ⨾ store 49)

abbrev pub pack_uint64_16 : List Statement
pack_uint64_16 = repeat 16 (load ⨾ shift_in 16 ⨾ shift_in 32 ⨾ store 48)
