-- ===== src/Bitpacking/Impl/U64From61.antt =====
-- bitpacking_impl.h: the bodies of `vertical_bitpacking< uint64_t >::pack< 61 >` to `pack< 64 >`.
use tsubasa.Base.{List, repeat}
use tsubasa.Bitpacking.Code.{Statement}
use tsubasa.Bitpacking.Impl.Text.{◌⨾◌, load, plain, shift_in, spill, store}

abbrev pub pack_uint64_61 : List Statement
pack_uint64_61 = repeat 1 (
    load
    ⨾ spill 61 3
    ⨾ spill 58 6
    ⨾ spill 55 9
    ⨾ spill 52 12
    ⨾ spill 49 15
    ⨾ spill 46 18
    ⨾ spill 43 21
    ⨾ spill 40 24
    ⨾ spill 37 27
    ⨾ spill 34 30
    ⨾ spill 31 33
    ⨾ spill 28 36
    ⨾ spill 25 39
    ⨾ spill 22 42
    ⨾ spill 19 45
    ⨾ spill 16 48
    ⨾ spill 13 51
    ⨾ spill 10 54
    ⨾ spill 7 57
    ⨾ spill 4 60
    ⨾ shift_in 1
    ⨾ spill 62 2
    ⨾ spill 59 5
    ⨾ spill 56 8
    ⨾ spill 53 11
    ⨾ spill 50 14
    ⨾ spill 47 17
    ⨾ spill 44 20
    ⨾ spill 41 23
    ⨾ spill 38 26
    ⨾ spill 35 29
    ⨾ spill 32 32
    ⨾ spill 29 35
    ⨾ spill 26 38
    ⨾ spill 23 41
    ⨾ spill 20 44
    ⨾ spill 17 47
    ⨾ spill 14 50
    ⨾ spill 11 53
    ⨾ spill 8 56
    ⨾ spill 5 59
    ⨾ shift_in 2
    ⨾ spill 63 1
    ⨾ spill 60 4
    ⨾ spill 57 7
    ⨾ spill 54 10
    ⨾ spill 51 13
    ⨾ spill 48 16
    ⨾ spill 45 19
    ⨾ spill 42 22
    ⨾ spill 39 25
    ⨾ spill 36 28
    ⨾ spill 33 31
    ⨾ spill 30 34
    ⨾ spill 27 37
    ⨾ spill 24 40
    ⨾ spill 21 43
    ⨾ spill 18 46
    ⨾ spill 15 49
    ⨾ spill 12 52
    ⨾ spill 9 55
    ⨾ spill 6 58
    ⨾ store 3)

abbrev pub pack_uint64_62 : List Statement
pack_uint64_62 = repeat 2 (
    load
    ⨾ spill 62 2
    ⨾ spill 60 4
    ⨾ spill 58 6
    ⨾ spill 56 8
    ⨾ spill 54 10
    ⨾ spill 52 12
    ⨾ spill 50 14
    ⨾ spill 48 16
    ⨾ spill 46 18
    ⨾ spill 44 20
    ⨾ spill 42 22
    ⨾ spill 40 24
    ⨾ spill 38 26
    ⨾ spill 36 28
    ⨾ spill 34 30
    ⨾ spill 32 32
    ⨾ spill 30 34
    ⨾ spill 28 36
    ⨾ spill 26 38
    ⨾ spill 24 40
    ⨾ spill 22 42
    ⨾ spill 20 44
    ⨾ spill 18 46
    ⨾ spill 16 48
    ⨾ spill 14 50
    ⨾ spill 12 52
    ⨾ spill 10 54
    ⨾ spill 8 56
    ⨾ spill 6 58
    ⨾ spill 4 60
    ⨾ store 2)

abbrev pub pack_uint64_63 : List Statement
pack_uint64_63 = repeat 1 (
    load
    ⨾ spill 63 1
    ⨾ spill 62 2
    ⨾ spill 61 3
    ⨾ spill 60 4
    ⨾ spill 59 5
    ⨾ spill 58 6
    ⨾ spill 57 7
    ⨾ spill 56 8
    ⨾ spill 55 9
    ⨾ spill 54 10
    ⨾ spill 53 11
    ⨾ spill 52 12
    ⨾ spill 51 13
    ⨾ spill 50 14
    ⨾ spill 49 15
    ⨾ spill 48 16
    ⨾ spill 47 17
    ⨾ spill 46 18
    ⨾ spill 45 19
    ⨾ spill 44 20
    ⨾ spill 43 21
    ⨾ spill 42 22
    ⨾ spill 41 23
    ⨾ spill 40 24
    ⨾ spill 39 25
    ⨾ spill 38 26
    ⨾ spill 37 27
    ⨾ spill 36 28
    ⨾ spill 35 29
    ⨾ spill 34 30
    ⨾ spill 33 31
    ⨾ spill 32 32
    ⨾ spill 31 33
    ⨾ spill 30 34
    ⨾ spill 29 35
    ⨾ spill 28 36
    ⨾ spill 27 37
    ⨾ spill 26 38
    ⨾ spill 25 39
    ⨾ spill 24 40
    ⨾ spill 23 41
    ⨾ spill 22 42
    ⨾ spill 21 43
    ⨾ spill 20 44
    ⨾ spill 19 45
    ⨾ spill 18 46
    ⨾ spill 17 47
    ⨾ spill 16 48
    ⨾ spill 15 49
    ⨾ spill 14 50
    ⨾ spill 13 51
    ⨾ spill 12 52
    ⨾ spill 11 53
    ⨾ spill 10 54
    ⨾ spill 9 55
    ⨾ spill 8 56
    ⨾ spill 7 57
    ⨾ spill 6 58
    ⨾ spill 5 59
    ⨾ spill 4 60
    ⨾ spill 3 61
    ⨾ spill 2 62
    ⨾ store 1)

abbrev pub pack_uint64_64 : List Statement
pack_uint64_64 = repeat 64 (plain)
