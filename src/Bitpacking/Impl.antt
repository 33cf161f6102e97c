-- ===== src/Bitpacking/Impl.antt =====
-- bitpacking_impl.h: the 96 specialisations of `pack`, a few to a module.
pub mod Text
pub mod U32From1
pub mod U32From9
pub mod U32From17
pub mod U32From25
pub mod U64From1
pub mod U64From5
pub mod U64From9
pub mod U64From13
pub mod U64From17
pub mod U64From21
pub mod U64From25
pub mod U64From29
pub mod U64From33
pub mod U64From37
pub mod U64From41
pub mod U64From45
pub mod U64From49
pub mod U64From53
pub mod U64From57
pub mod U64From61
