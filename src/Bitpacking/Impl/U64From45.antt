-- ===== src/Bitpacking/Impl/U64From45.antt =====
-- bitpacking_impl.h: the bodies of `vertical_bitpacking< uint64_t >::pack< 45 >` to `pack< 48 >`.
use tsubasa.Base.{List, repeat}
use tsubasa.Bitpacking.Code.{Statement}
use tsubasa.Bitpacking.Impl.Text.{◌⨾◌, load, shift_in, spill, store}

abbrev pub pack_uint64_45 : List Statement
pack_uint64_45 = repeat 1 (
    load
    ⨾ spill 45 19
    ⨾ spill 26 38
    ⨾ shift_in 7
    ⨾ spill 52 12
    ⨾ spill 33 31
    ⨾ shift_in 14
    ⨾ spill 59 5
    ⨾ spill 40 24
    ⨾ spill 21 43
    ⨾ shift_in 2
    ⨾ spill 47 17
    ⨾ spill 28 36
    ⨾ shift_in 9
    ⨾ spill 54 10
    ⨾ spill 35 29
    ⨾ shift_in 16
    ⨾ spill 61 3
    ⨾ spill 42 22
    ⨾ spill 23 41
    ⨾ shift_in 4
    ⨾ spill 49 15
    ⨾ spill 30 34
    ⨾ shift_in 11
    ⨾ spill 56 8
    ⨾ spill 37 27
    ⨾ shift_in 18
    ⨾ spill 63 1
    ⨾ spill 44 20
    ⨾ spill 25 39
    ⨾ shift_in 6
    ⨾ spill 51 13
    ⨾ spill 32 32
    ⨾ shift_in 13
    ⨾ spill 58 6
    ⨾ spill 39 25
    ⨾ spill 20 44
    ⨾ shift_in 1
    ⨾ spill 46 18
    ⨾ spill 27 37
    ⨾ shift_in 8
    ⨾ spill 53 11
    ⨾ spill 34 30
    ⨾ shift_in 15
    ⨾ spill 60 4
    ⨾ spill 41 23
    ⨾ spill 22 42
    ⨾ shift_in 3
    ⨾ spill 48 16
    ⨾ spill 29 35
    ⨾ shift_in 10
    ⨾ spill 55 9
    ⨾ spill 36 28
    ⨾ shift_in 17
    ⨾ spill 62 2
    ⨾ spill 43 21
    ⨾ spill 24 40
    ⨾ shift_in 5
    ⨾ spill 50 14
    ⨾ spill 31 33
    ⨾ shift_in 12
    ⨾ spill 57 7
    ⨾ spill 38 26
    ⨾ store 19)

abbrev pub pack_uint64_46 : List Statement
pack_uint64_46 = repeat 2 (
    load
    ⨾ spill 46 18
    ⨾ spill 28 36
    ⨾ shift_in 10
    ⨾ spill 56 8
    ⨾ spill 38 26
    ⨾ spill 20 44
    ⨾ shift_in 2
    ⨾ spill 48 16
    ⨾ spill 30 34
    ⨾ shift_in 12
    ⨾ spill 58 6
    ⨾ spill 40 24
    ⨾ spill 22 42
    ⨾ shift_in 4
    ⨾ spill 50 14
    ⨾ spill 32 32
    ⨾ shift_in 14
    ⨾ spill 60 4
    ⨾ spill 42 22
    ⨾ spill 24 40
    ⨾ shift_in 6
    ⨾ spill 52 12
    ⨾ spill 34 30
    ⨾ shift_in 16
    ⨾ spill 62 2
    ⨾ spill 44 20
    ⨾ spill 26 38
    ⨾ shift_in 8
    ⨾ spill 54 10
    ⨾ spill 36 28
    ⨾ store 18)

abbrev pub pack_uint64_47 : List Statement
pack_uint64_47 = repeat 1 (
    load
    ⨾ spill 47 17
    ⨾ spill 30 34
    ⨾ shift_in 13
    ⨾ spill 60 4
    ⨾ spill 43 21
    ⨾ spill 26 38
    ⨾ shift_in 9
    ⨾ spill 56 8
    ⨾ spill 39 25
    ⨾ spill 22 42
    ⨾ shift_in 5
    ⨾ spill 52 12
    ⨾ spill 35 29
    ⨾ spill 18 46
    ⨾ shift_in 1
    ⨾ spill 48 16
    ⨾ spill 31 33
    ⨾ shift_in 14
    ⨾ spill 61 3
    ⨾ spill 44 20
    ⨾ spill 27 37
    ⨾ shift_in 10
    ⨾ spill 57 7
    ⨾ spill 40 24
    ⨾ spill 23 41
    ⨾ shift_in 6
    ⨾ spill 53 11
    ⨾ spill 36 28
    ⨾ spill 19 45
    ⨾ shift_in 2
    ⨾ spill 49 15
    ⨾ spill 32 32
    ⨾ shift_in 15
    ⨾ spill 62 2
    ⨾ spill 45 19
    ⨾ spill 28 36
    ⨾ shift_in 11
    ⨾ spill 58 6
    ⨾ spill 41 23
    ⨾ spill 24 40
    ⨾ shift_in 7
    ⨾ spill 54 10
    ⨾ spill 37 27
    ⨾ spill 20 44
    ⨾ shift_in 3
    ⨾ spill 50 14
    ⨾ spill 33 31
    ⨾ shift_in 16
    ⨾ spill 63 1
    ⨾ spill 46 18
    ⨾ spill 29 35
    ⨾ shift_in 12
    ⨾ spill 59 5
    ⨾ spill 42 22
    ⨾ spill 25 39
    ⨾ shift_in 8
    ⨾ spill 55 9
    ⨾ spill 38 26
    ⨾ spill 21 43
    ⨾ shift_in 4
    ⨾ spill 51 13
    ⨾ spill 34 30
    ⨾ store 17)

abbrev pub pack_uint64_48 : List Statement
pack_uint64_48 = repeat 16 (load ⨾ spill 48 16 ⨾ spill 32 32 ⨾ store 16)
