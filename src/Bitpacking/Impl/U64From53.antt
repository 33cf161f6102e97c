-- ===== src/Bitpacking/Impl/U64From53.antt =====
-- bitpacking_impl.h: the bodies of `vertical_bitpacking< uint64_t >::pack< 53 >` to `pack< 56 >`.
use tsubasa.Base.{List, repeat}
use tsubasa.Bitpacking.Code.{Statement}
use tsubasa.Bitpacking.Impl.Text.{◌⨾◌, load, shift_in, spill, store}

abbrev pub pack_uint64_53 : List Statement
pack_uint64_53 = repeat 1 (
    load
    ⨾ spill 53 11
    ⨾ spill 42 22
    ⨾ spill 31 33
    ⨾ spill 20 44
    ⨾ shift_in 9
    ⨾ spill 62 2
    ⨾ spill 51 13
    ⨾ spill 40 24
    ⨾ spill 29 35
    ⨾ spill 18 46
    ⨾ shift_in 7
    ⨾ spill 60 4
    ⨾ spill 49 15
    ⨾ spill 38 26
    ⨾ spill 27 37
    ⨾ spill 16 48
    ⨾ shift_in 5
    ⨾ spill 58 6
    ⨾ spill 47 17
    ⨾ spill 36 28
    ⨾ spill 25 39
    ⨾ spill 14 50
    ⨾ shift_in 3
    ⨾ spill 56 8
    ⨾ spill 45 19
    ⨾ spill 34 30
    ⨾ spill 23 41
    ⨾ spill 12 52
    ⨾ shift_in 1
    ⨾ spill 54 10
    ⨾ spill 43 21
    ⨾ spill 32 32
    ⨾ spill 21 43
    ⨾ shift_in 10
    ⨾ spill 63 1
    ⨾ spill 52 12
    ⨾ spill 41 23
    ⨾ spill 30 34
    ⨾ spill 19 45
    ⨾ shift_in 8
    ⨾ spill 61 3
    ⨾ spill 50 14
    ⨾ spill 39 25
    ⨾ spill 28 36
    ⨾ spill 17 47
    ⨾ shift_in 6
    ⨾ spill 59 5
    ⨾ spill 48 16
    ⨾ spill 37 27
    ⨾ spill 26 38
    ⨾ spill 15 49
    ⨾ shift_in 4
    ⨾ spill 57 7
    ⨾ spill 46 18
    ⨾ spill 35 29
    ⨾ spill 24 40
    ⨾ spill 13 51
    ⨾ shift_in 2
    ⨾ spill 55 9
    ⨾ spill 44 20
    ⨾ spill 33 31
    ⨾ spill 22 42
    ⨾ store 11)

abbrev pub pack_uint64_54 : List Statement
pack_uint64_54 = repeat 2 (
    load
    ⨾ spill 54 10
    ⨾ spill 44 20
    ⨾ spill 34 30
    ⨾ spill 24 40
    ⨾ spill 14 50
    ⨾ shift_in 4
    ⨾ spill 58 6
    ⨾ spill 48 16
    ⨾ spill 38 26
    ⨾ spill 28 36
    ⨾ spill 18 46
    ⨾ shift_in 8
    ⨾ spill 62 2
    ⨾ spill 52 12
    ⨾ spill 42 22
    ⨾ spill 32 32
    ⨾ spill 22 42
    ⨾ spill 12 52
    ⨾ shift_in 2
    ⨾ spill 56 8
    ⨾ spill 46 18
    ⨾ spill 36 28
    ⨾ spill 26 38
    ⨾ spill 16 48
    ⨾ shift_in 6
    ⨾ spill 60 4
    ⨾ spill 50 14
    ⨾ spill 40 24
    ⨾ spill 30 34
    ⨾ spill 20 44
    ⨾ store 10)

abbrev pub pack_uint64_55 : List Statement
pack_uint64_55 = repeat 1 (
    load
    ⨾ spill 55 9
    ⨾ spill 46 18
    ⨾ spill 37 27
    ⨾ spill 28 36
    ⨾ spill 19 45
    ⨾ spill 10 54
    ⨾ shift_in 1
    ⨾ spill 56 8
    ⨾ spill 47 17
    ⨾ spill 38 26
    ⨾ spill 29 35
    ⨾ spill 20 44
    ⨾ spill 11 53
    ⨾ shift_in 2
    ⨾ spill 57 7
    ⨾ spill 48 16
    ⨾ spill 39 25
    ⨾ spill 30 34
    ⨾ spill 21 43
    ⨾ spill 12 52
    ⨾ shift_in 3
    ⨾ spill 58 6
    ⨾ spill 49 15
    ⨾ spill 40 24
    ⨾ spill 31 33
    ⨾ spill 22 42
    ⨾ spill 13 51
    ⨾ shift_in 4
    ⨾ spill 59 5
    ⨾ spill 50 14
    ⨾ spill 41 23
    ⨾ spill 32 32
    ⨾ spill 23 41
    ⨾ spill 14 50
    ⨾ shift_in 5
    ⨾ spill 60 4
    ⨾ spill 51 13
    ⨾ spill 42 22
    ⨾ spill 33 31
    ⨾ spill 24 40
    ⨾ spill 15 49
    ⨾ shift_in 6
    ⨾ spill 61 3
    ⨾ spill 52 12
    ⨾ spill 43 21
    ⨾ spill 34 30
    ⨾ spill 25 39
    ⨾ spill 16 48
    ⨾ shift_in 7
    ⨾ spill 62 2
    ⨾ spill 53 11
    ⨾ spill 44 20
    ⨾ spill 35 29
    ⨾ spill 26 38
    ⨾ spill 17 47
    ⨾ shift_in 8
    ⨾ spill 63 1
    ⨾ spill 54 10
    ⨾ spill 45 19
    ⨾ spill 36 28
    ⨾ spill 27 37
    ⨾ spill 18 46
    ⨾ store 9)

abbrev pub pack_uint64_56 : List Statement
pack_uint64_56 = repeat 8 (
    load
    ⨾ spill 56 8
    ⨾ spill 48 16
    ⨾ spill 40 24
    ⨾ spill 32 32
    ⨾ spill 24 40
    ⨾ spill 16 48
    ⨾ store 8)
