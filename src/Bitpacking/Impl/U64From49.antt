-- ===== src/Bitpacking/Impl/U64From49.antt =====
-- bitpacking_impl.h: the bodies of `vertical_bitpacking< uint64_t >::pack< 49 >` to `pack< 52 >`.
use tsubasa.Base.{List, repeat}
use tsubasa.Bitpacking.Code.{Statement}
use tsubasa.Bitpacking.Impl.Text.{◌⨾◌, load, shift_in, spill, store}

abbrev pub pack_uint64_49 : List Statement
pack_uint64_49 = repeat 1 (
    load
    ⨾ spill 49 15
    ⨾ spill 34 30
    ⨾ spill 19 45
    ⨾ shift_in 4
    ⨾ spill 53 11
    ⨾ spill 38 26
    ⨾ spill 23 41
    ⨾ shift_in 8
    ⨾ spill 57 7
    ⨾ spill 42 22
    ⨾ spill 27 37
    ⨾ shift_in 12
    ⨾ spill 61 3
    ⨾ spill 46 18
    ⨾ spill 31 33
    ⨾ spill 16 48
    ⨾ shift_in 1
    ⨾ spill 50 14
    ⨾ spill 35 29
    ⨾ spill 20 44
    ⨾ shift_in 5
    ⨾ spill 54 10
    ⨾ spill 39 25
    ⨾ spill 24 40
    ⨾ shift_in 9
    ⨾ spill 58 6
    ⨾ spill 43 21
    ⨾ spill 28 36
    ⨾ shift_in 13
    ⨾ spill 62 2
    ⨾ spill 47 17
    ⨾ spill 32 32
    ⨾ spill 17 47
    ⨾ shift_in 2
    ⨾ spill 51 13
    ⨾ spill 36 28
    ⨾ spill 21 43
    ⨾ shift_in 6
    ⨾ spill 55 9
    ⨾ spill 40 24
    ⨾ spill 25 39
    ⨾ shift_in 10
    ⨾ spill 59 5
    ⨾ spill 44 20
    ⨾ spill 29 35
    ⨾ shift_in 14
    ⨾ spill 63 1
    ⨾ spill 48 16
    ⨾ spill 33 31
    ⨾ spill 18 46
    ⨾ shift_in 3
    ⨾ spill 52 12
    ⨾ spill 37 27
    ⨾ spill 22 42
    ⨾ shift_in 7
    ⨾ spill 56 8
    ⨾ spill 41 23
    ⨾ spill 26 38
    ⨾ shift_in 11
    ⨾ spill 60 4
    ⨾ spill 45 19
    ⨾ spill 30 34
    ⨾ store 15)

abbrev pub pack_uint64_50 : List Statement
pack_uint64_50 = repeat 2 (
    load
    ⨾ spill 50 14
    ⨾ spill 36 28
    ⨾ spill 22 42
    ⨾ shift_in 8
    ⨾ spill 58 6
    ⨾ spill 44 20
    ⨾ spill 30 34
    ⨾ spill 16 48
    ⨾ shift_in 2
    ⨾ spill 52 12
    ⨾ spill 38 26
    ⨾ spill 24 40
    ⨾ shift_in 10
    ⨾ spill 60 4
    ⨾ spill 46 18
    ⨾ spill 32 32
    ⨾ spill 18 46
    ⨾ shift_in 4
    ⨾ spill 54 10
    ⨾ spill 40 24
    ⨾ spill 26 38
    ⨾ shift_in 12
    ⨾ spill 62 2
    ⨾ spill 48 16
    ⨾ spill 34 30
    ⨾ spill 20 44
    ⨾ shift_in 6
    ⨾ spill 56 8
    ⨾ spill 42 22
    ⨾ spill 28 36
    ⨾ store 14)

abbrev pub pack_uint64_51 : List Statement
pack_uint64_51 = repeat 1 (
    load
    ⨾ spill 51 13
    ⨾ spill 38 26
    ⨾ spill 25 39
    ⨾ shift_in 12
    ⨾ spill 63 1
    ⨾ spill 50 14
    ⨾ spill 37 27
    ⨾ spill 24 40
    ⨾ shift_in 11
    ⨾ spill 62 2
    ⨾ spill 49 15
    ⨾ spill 36 28
    ⨾ spill 23 41
    ⨾ shift_in 10
    ⨾ spill 61 3
    ⨾ spill 48 16
    ⨾ spill 35 29
    ⨾ spill 22 42
    ⨾ shift_in 9
    ⨾ spill 60 4
    ⨾ spill 47 17
    ⨾ spill 34 30
    ⨾ spill 21 43
    ⨾ shift_in 8
    ⨾ spill 59 5
    ⨾ spill 46 18
    ⨾ spill 33 31
    ⨾ spill 20 44
    ⨾ shift_in 7
    ⨾ spill 58 6
    ⨾ spill 45 19
    ⨾ spill 32 32
    ⨾ spill 19 45
    ⨾ shift_in 6
    ⨾ spill 57 7
    ⨾ spill 44 20
    ⨾ spill 31 33
    ⨾ spill 18 46
    ⨾ shift_in 5
    ⨾ spill 56 8
    ⨾ spill 43 21
    ⨾ spill 30 34
    ⨾ spill 17 47
    ⨾ shift_in 4
    ⨾ spill 55 9
    ⨾ spill 42 22
    ⨾ spill 29 35
    ⨾ spill 16 48
    ⨾ shift_in 3
    ⨾ spill 54 10
    ⨾ spill 41 23
    ⨾ spill 28 36
    ⨾ spill 15 49
    ⨾ shift_in 2
    ⨾ spill 53 11
    ⨾ spill 40 24
    ⨾ spill 27 37
    ⨾ spill 14 50
    ⨾ shift_in 1
    ⨾ spill 52 12
    ⨾ spill 39 25
    ⨾ spill 26 38
    ⨾ store 13)

abbrev pub pack_uint64_52 : List Statement
pack_uint64_52 = repeat 4 (
    load
    ⨾ spill 52 12
    ⨾ spill 40 24
    ⨾ spill 28 36
    ⨾ spill 16 48
    ⨾ shift_in 4
    ⨾ spill 56 8
    ⨾ spill 44 20
    ⨾ spill 32 32
    ⨾ spill 20 44
    ⨾ shift_in 8
    ⨾ spill 60 4
    ⨾ spill 48 16
    ⨾ spill 36 28
    ⨾ spill 24 40
    ⨾ store 12)
