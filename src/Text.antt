-- ===== src/Text.antt =====
-- JavaScript strings: lists of UTF-16 code units, and the String methods that the client calls.
-- `Base` has the methods as ECMAScript documents them, `Laws` what the other modules need of them,
-- `Decimal` the conversion of numbers to and from decimal text.
mod Base
mod Laws
pub mod Decimal
pub mod Objects
pub mod Distinct
unfoldable pub use Base.*
pub use Laws.*
