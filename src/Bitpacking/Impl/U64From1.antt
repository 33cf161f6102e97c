-- ===== src/Bitpacking/Impl/U64From1.antt =====
-- bitpacking_impl.h: the bodies of `vertical_bitpacking< uint64_t >::pack< 1 >` to `pack< 4 >`.
use tsubasa.Base.{List, repeat}
use tsubasa.Bitpacking.Code.{Statement}
use tsubasa.Bitpacking.Impl.Text.{◌⨾◌, load, shift_in, spill, store}

abbrev pub pack_uint64_1 : List Statement
pack_uint64_1 = repeat 1 (
    load
    ⨾ shift_in 1
    ⨾ shift_in 2
    ⨾ shift_in 3
    ⨾ shift_in 4
    ⨾ shift_in 5
    ⨾ shift_in 6
    ⨾ shift_in 7
    ⨾ shift_in 8
    ⨾ shift_in 9
    ⨾ shift_in 10
    ⨾ shift_in 11
    ⨾ shift_in 12
    ⨾ shift_in 13
    ⨾ shift_in 14
    ⨾ shift_in 15
    ⨾ shift_in 16
    ⨾ shift_in 17
    ⨾ shift_in 18
    ⨾ shift_in 19
    ⨾ shift_in 20
    ⨾ shift_in 21
    ⨾ shift_in 22
    ⨾ shift_in 23
    ⨾ shift_in 24
    ⨾ shift_in 25
    ⨾ shift_in 26
    ⨾ shift_in 27
    ⨾ shift_in 28
    ⨾ shift_in 29
    ⨾ shift_in 30
    ⨾ shift_in 31
    ⨾ shift_in 32
    ⨾ shift_in 33
    ⨾ shift_in 34
    ⨾ shift_in 35
    ⨾ shift_in 36
    ⨾ shift_in 37
    ⨾ shift_in 38
    ⨾ shift_in 39
    ⨾ shift_in 40
    ⨾ shift_in 41
    ⨾ shift_in 42
    ⨾ shift_in 43
    ⨾ shift_in 44
    ⨾ shift_in 45
    ⨾ shift_in 46
    ⨾ shift_in 47
    ⨾ shift_in 48
    ⨾ shift_in 49
    ⨾ shift_in 50
    ⨾ shift_in 51
    ⨾ shift_in 52
    ⨾ shift_in 53
    ⨾ shift_in 54
    ⨾ shift_in 55
    ⨾ shift_in 56
    ⨾ shift_in 57
    ⨾ shift_in 58
    ⨾ shift_in 59
    ⨾ shift_in 60
    ⨾ shift_in 61
    ⨾ shift_in 62
    ⨾ store 63)

abbrev pub pack_uint64_2 : List Statement
pack_uint64_2 = repeat 2 (
    load
    ⨾ shift_in 2
    ⨾ shift_in 4
    ⨾ shift_in 6
    ⨾ shift_in 8
    ⨾ shift_in 10
    ⨾ shift_in 12
    ⨾ shift_in 14
    ⨾ shift_in 16
    ⨾ shift_in 18
    ⨾ shift_in 20
    ⨾ shift_in 22
    ⨾ shift_in 24
    ⨾ shift_in 26
    ⨾ shift_in 28
    ⨾ shift_in 30
    ⨾ shift_in 32
    ⨾ shift_in 34
    ⨾ shift_in 36
    ⨾ shift_in 38
    ⨾ shift_in 40
    ⨾ shift_in 42
    ⨾ shift_in 44
    ⨾ shift_in 46
    ⨾ shift_in 48
    ⨾ shift_in 50
    ⨾ shift_in 52
    ⨾ shift_in 54
    ⨾ shift_in 56
    ⨾ shift_in 58
    ⨾ shift_in 60
    ⨾ store 62)

abbrev pub pack_uint64_3 : List Statement
pack_uint64_3 = repeat 1 (
    load
    ⨾ shift_in 3
    ⨾ shift_in 6
    ⨾ shift_in 9
    ⨾ shift_in 12
    ⨾ shift_in 15
    ⨾ shift_in 18
    ⨾ shift_in 21
    ⨾ shift_in 24
    ⨾ shift_in 27
    ⨾ shift_in 30
    ⨾ shift_in 33
    ⨾ shift_in 36
    ⨾ shift_in 39
    ⨾ shift_in 42
    ⨾ shift_in 45
    ⨾ shift_in 48
    ⨾ shift_in 51
    ⨾ shift_in 54
    ⨾ shift_in 57
    ⨾ shift_in 60
    ⨾ spill 63 1
    ⨾ shift_in 2
    ⨾ shift_in 5
    ⨾ shift_in 8
    ⨾ shift_in 11
    ⨾ shift_in 14
    ⨾ shift_in 17
    ⨾ shift_in 20
    ⨾ shift_in 23
    ⨾ shift_in 26
    ⨾ shift_in 29
    ⨾ shift_in 32
    ⨾ shift_in 35
    ⨾ shift_in 38
    ⨾ shift_in 41
    ⨾ shift_in 44
    ⨾ shift_in 47
    ⨾ shift_in 50
    ⨾ shift_in 53
    ⨾ shift_in 56
    ⨾ shift_in 59
    ⨾ spill 62 2
    ⨾ shift_in 1
    ⨾ shift_in 4
    ⨾ shift_in 7
    ⨾ shift_in 10
    ⨾ shift_in 13
    ⨾ shift_in 16
    ⨾ shift_in 19
    ⨾ shift_in 22
    ⨾ shift_in 25
    ⨾ shift_in 28
    ⨾ shift_in 31
    ⨾ shift_in 34
    ⨾ shift_in 37
    ⨾ shift_in 40
    ⨾ shift_in 43
    ⨾ shift_in 46
    ⨾ shift_in 49
    ⨾ shift_in 52
    ⨾ shift_in 55
    ⨾ shift_in 58
    ⨾ store 61)

abbrev pub pack_uint64_4 : List Statement
pack_uint64_4 = repeat 4 (
    load
    ⨾ shift_in 4
    ⨾ shift_in 8
    ⨾ shift_in 12
    ⨾ shift_in 16
    ⨾ shift_in 20
    ⨾ shift_in 24
    ⨾ shift_in 28
    ⨾ shift_in 32
    ⨾ shift_in 36
    ⨾ shift_in 40
    ⨾ shift_in 44
    ⨾ shift_in 48
    ⨾ shift_in 52
    ⨾ shift_in 56
    ⨾ store 60)
