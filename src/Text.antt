-- ===== src/Text.antt =====
-- lib/string.c and `printnum` of lib/printfmt.c. A `char *` is the list of the bytes from there to
-- the end of the object it points into. A result is `none` where the C code reads or writes past
-- that end. An `int` is its bit pattern.
pub mod Strings
pub mod Numbers
pub mod Compare
pub mod RoundTrip
pub mod Messages
pub mod Format
pub mod Buffer
pub mod Print
