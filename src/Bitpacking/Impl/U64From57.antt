-- ===== src/Bitpacking/Impl/U64From57.antt =====
-- bitpacking_impl.h: the bodies of `vertical_bitpacking< uint64_t >::pack< 57 >` to `pack< 60 >`.
use tsubasa.Base.{List, repeat}
use tsubasa.Bitpacking.Code.{Statement}
use tsubasa.Bitpacking.Impl.Text.{◌⨾◌, load, shift_in, spill, store}

abbrev pub pack_uint64_57 : List Statement
pack_uint64_57 = repeat 1 (
    load
    ⨾ spill 57 7
    ⨾ spill 50 14
    ⨾ spill 43 21
    ⨾ spill 36 28
    ⨾ spill 29 35
    ⨾ spill 22 42
    ⨾ spill 15 49
    ⨾ spill 8 56
    ⨾ shift_in 1
    ⨾ spill 58 6
    ⨾ spill 51 13
    ⨾ spill 44 20
    ⨾ spill 37 27
    ⨾ spill 30 34
    ⨾ spill 23 41
    ⨾ spill 16 48
    ⨾ spill 9 55
    ⨾ shift_in 2
    ⨾ spill 59 5
    ⨾ spill 52 12
    ⨾ spill 45 19
    ⨾ spill 38 26
    ⨾ spill 31 33
    ⨾ spill 24 40
    ⨾ spill 17 47
    ⨾ spill 10 54
    ⨾ shift_in 3
    ⨾ spill 60 4
    ⨾ spill 53 11
    ⨾ spill 46 18
    ⨾ spill 39 25
    ⨾ spill 32 32
    ⨾ spill 25 39
    ⨾ spill 18 46
    ⨾ spill 11 53
    ⨾ shift_in 4
    ⨾ spill 61 3
    ⨾ spill 54 10
    ⨾ spill 47 17
    ⨾ spill 40 24
    ⨾ spill 33 31
    ⨾ spill 26 38
    ⨾ spill 19 45
    ⨾ spill 12 52
    ⨾ shift_in 5
    ⨾ spill 62 2
    ⨾ spill 55 9
    ⨾ spill 48 16
    ⨾ spill 41 23
    ⨾ spill 34 30
    ⨾ spill 27 37
    ⨾ spill 20 44
    ⨾ spill 13 51
    ⨾ shift_in 6
    ⨾ spill 63 1
    ⨾ spill 56 8
    ⨾ spill 49 15
    ⨾ spill 42 22
    ⨾ spill 35 29
    ⨾ spill 28 36
    ⨾ spill 21 43
    ⨾ spill 14 50
    ⨾ store 7)

abbrev pub pack_uint64_58 : List Statement
pack_uint64_58 = repeat 2 (
    load
    ⨾ spill 58 6
    ⨾ spill 52 12
    ⨾ spill 46 18
    ⨾ spill 40 24
    ⨾ spill 34 30
    ⨾ spill 28 36
    ⨾ spill 22 42
    ⨾ spill 16 48
    ⨾ spill 10 54
    ⨾ shift_in 4
    ⨾ spill 62 2
    ⨾ spill 56 8
    ⨾ spill 50 14
    ⨾ spill 44 20
    ⨾ spill 38 26
    ⨾ spill 32 32
    ⨾ spill 26 38
    ⨾ spill 20 44
    ⨾ spill 14 50
    ⨾ spill 8 56
    ⨾ shift_in 2
    ⨾ spill 60 4
    ⨾ spill 54 10
    ⨾ spill 48 16
    ⨾ spill 42 22
    ⨾ spill 36 28
    ⨾ spill 30 34
    ⨾ spill 24 40
    ⨾ spill 18 46
    ⨾ spill 12 52
    ⨾ store 6)

abbrev pub pack_uint64_59 : List Statement
pack_uint64_59 = repeat 1 (
    load
    ⨾ spill 59 5
    ⨾ spill 54 10
    ⨾ spill 49 15
    ⨾ spill 44 20
    ⨾ spill 39 25
    ⨾ spill 34 30
    ⨾ spill 29 35
    ⨾ spill 24 40
    ⨾ spill 19 45
    ⨾ spill 14 50
    ⨾ spill 9 55
    ⨾ shift_in 4
    ⨾ spill 63 1
    ⨾ spill 58 6
    ⨾ spill 53 11
    ⨾ spill 48 16
    ⨾ spill 43 21
    ⨾ spill 38 26
    ⨾ spill 33 31
    ⨾ spill 28 36
    ⨾ spill 23 41
    ⨾ spill 18 46
    ⨾ spill 13 51
    ⨾ spill 8 56
    ⨾ shift_in 3
    ⨾ spill 62 2
    ⨾ spill 57 7
    ⨾ spill 52 12
    ⨾ spill 47 17
    ⨾ spill 42 22
    ⨾ spill 37 27
    ⨾ spill 32 32
    ⨾ spill 27 37
    ⨾ spill 22 42
    ⨾ spill 17 47
    ⨾ spill 12 52
    ⨾ spill 7 57
    ⨾ shift_in 2
    ⨾ spill 61 3
    ⨾ spill 56 8
    ⨾ spill 51 13
    ⨾ spill 46 18
    ⨾ spill 41 23
    ⨾ spill 36 28
    ⨾ spill 31 33
    ⨾ spill 26 38
    ⨾ spill 21 43
    ⨾ spill 16 48
    ⨾ spill 11 53
    ⨾ spill 6 58
    ⨾ shift_in 1
    ⨾ spill 60 4
    ⨾ spill 55 9
    ⨾ spill 50 14
    ⨾ spill 45 19
    ⨾ spill 40 24
    ⨾ spill 35 29
    ⨾ spill 30 34
    ⨾ spill 25 39
    ⨾ spill 20 44
    ⨾ spill 15 49
    ⨾ spill 10 54
    ⨾ store 5)

abbrev pub pack_uint64_60 : List Statement
pack_uint64_60 = repeat 4 (
    load
    ⨾ spill 60 4
    ⨾ spill 56 8
    ⨾ spill 52 12
    ⨾ spill 48 16
    ⨾ spill 44 20
    ⨾ spill 40 24
    ⨾ spill 36 28
    ⨾ spill 32 32
    ⨾ spill 28 36
    ⨾ spill 24 40
    ⨾ spill 20 44
    ⨾ spill 16 48
    ⨾ spill 12 52
    ⨾ spill 8 56
    ⨾ store 4)
