-- ===== src/Bitpacking/Impl/U64From41.antt =====
-- bitpacking_impl.h: the bodies of `vertical_bitpacking< uint64_t >::pack< 41 >` to `pack< 44 >`.
use tsubasa.Base.{List, repeat}
use tsubasa.Bitpacking.Code.{Statement}
use tsubasa.Bitpacking.Impl.Text.{◌⨾◌, load, shift_in, spill, store}

abbrev pub pack_uint64_41 : List Statement
pack_uint64_41 = repeat 1 (
    load
    ⨾ spill 41 23
    ⨾ shift_in 18
    ⨾ spill 59 5
    ⨾ spill 36 28
    ⨾ shift_in 13
    ⨾ spill 54 10
    ⨾ spill 31 33
    ⨾ shift_in 8
    ⨾ spill 49 15
    ⨾ spill 26 38
    ⨾ shift_in 3
    ⨾ spill 44 20
    ⨾ shift_in 21
    ⨾ spill 62 2
    ⨾ spill 39 25
    ⨾ shift_in 16
    ⨾ spill 57 7
    ⨾ spill 34 30
    ⨾ shift_in 11
    ⨾ spill 52 12
    ⨾ spill 29 35
    ⨾ shift_in 6
    ⨾ spill 47 17
    ⨾ spill 24 40
    ⨾ shift_in 1
    ⨾ spill 42 22
    ⨾ shift_in 19
    ⨾ spill 60 4
    ⨾ spill 37 27
    ⨾ shift_in 14
    ⨾ spill 55 9
    ⨾ spill 32 32
    ⨾ shift_in 9
    ⨾ spill 50 14
    ⨾ spill 27 37
    ⨾ shift_in 4
    ⨾ spill 45 19
    ⨾ shift_in 22
    ⨾ spill 63 1
    ⨾ spill 40 24
    ⨾ shift_in 17
    ⨾ spill 58 6
    ⨾ spill 35 29
    ⨾ shift_in 12
    ⨾ spill 53 11
    ⨾ spill 30 34
    ⨾ shift_in 7
    ⨾ spill 48 16
    ⨾ spill 25 39
    ⨾ shift_in 2
    ⨾ spill 43 21
    ⨾ shift_in 20
    ⨾ spill 61 3
    ⨾ spill 38 26
    ⨾ shift_in 15
    ⨾ spill 56 8
    ⨾ spill 33 31
    ⨾ shift_in 10
    ⨾ spill 51 13
    ⨾ spill 28 36
    ⨾ shift_in 5
    ⨾ spill 46 18
    ⨾ store 23)

abbrev pub pack_uint64_42 : List Statement
pack_uint64_42 = repeat 2 (
    load
    ⨾ spill 42 22
    ⨾ shift_in 20
    ⨾ spill 62 2
    ⨾ spill 40 24
    ⨾ shift_in 18
    ⨾ spill 60 4
    ⨾ spill 38 26
    ⨾ shift_in 16
    ⨾ spill 58 6
    ⨾ spill 36 28
    ⨾ shift_in 14
    ⨾ spill 56 8
    ⨾ spill 34 30
    ⨾ shift_in 12
    ⨾ spill 54 10
    ⨾ spill 32 32
    ⨾ shift_in 10
    ⨾ spill 52 12
    ⨾ spill 30 34
    ⨾ shift_in 8
    ⨾ spill 50 14
    ⨾ spill 28 36
    ⨾ shift_in 6
    ⨾ spill 48 16
    ⨾ spill 26 38
    ⨾ shift_in 4
    ⨾ spill 46 18
    ⨾ spill 24 40
    ⨾ shift_in 2
    ⨾ spill 44 20
    ⨾ store 22)

abbrev pub pack_uint64_43 : List Statement
pack_uint64_43 = repeat 1 (
    load
    ⨾ spill 43 21
    ⨾ spill 22 42
    ⨾ shift_in 1
    ⨾ spill 44 20
    ⨾ spill 23 41
    ⨾ shift_in 2
    ⨾ spill 45 19
    ⨾ spill 24 40
    ⨾ shift_in 3
    ⨾ spill 46 18
    ⨾ spill 25 39
    ⨾ shift_in 4
    ⨾ spill 47 17
    ⨾ spill 26 38
    ⨾ shift_in 5
    ⨾ spill 48 16
    ⨾ spill 27 37
    ⨾ shift_in 6
    ⨾ spill 49 15
    ⨾ spill 28 36
    ⨾ shift_in 7
    ⨾ spill 50 14
    ⨾ spill 29 35
    ⨾ shift_in 8
    ⨾ spill 51 13
    ⨾ spill 30 34
    ⨾ shift_in 9
    ⨾ spill 52 12
    ⨾ spill 31 33
    ⨾ shift_in 10
    ⨾ spill 53 11
    ⨾ spill 32 32
    ⨾ shift_in 11
    ⨾ spill 54 10
    ⨾ spill 33 31
    ⨾ shift_in 12
    ⨾ spill 55 9
    ⨾ spill 34 30
    ⨾ shift_in 13
    ⨾ spill 56 8
    ⨾ spill 35 29
    ⨾ shift_in 14
    ⨾ spill 57 7
    ⨾ spill 36 28
    ⨾ shift_in 15
    ⨾ spill 58 6
    ⨾ spill 37 27
    ⨾ shift_in 16
    ⨾ spill 59 5
    ⨾ spill 38 26
    ⨾ shift_in 17
    ⨾ spill 60 4
    ⨾ spill 39 25
    ⨾ shift_in 18
    ⨾ spill 61 3
    ⨾ spill 40 24
    ⨾ shift_in 19
    ⨾ spill 62 2
    ⨾ spill 41 23
    ⨾ shift_in 20
    ⨾ spill 63 1
    ⨾ spill 42 22
    ⨾ store 21)

abbrev pub pack_uint64_44 : List Statement
pack_uint64_44 = repeat 4 (
    load
    ⨾ spill 44 20
    ⨾ spill 24 40
    ⨾ shift_in 4
    ⨾ spill 48 16
    ⨾ spill 28 36
    ⨾ shift_in 8
    ⨾ spill 52 12
    ⨾ spill 32 32
    ⨾ shift_in 12
    ⨾ spill 56 8
    ⨾ spill 36 28
    ⨾ shift_in 16
    ⨾ spill 60 4
    ⨾ spill 40 24
    ⨾ store 20)
