-- ===== src/Js/Number.antt =====
-- Numbers of JavaScript. A finite number is an exact decimal, so the rounding to 53 bits, the
-- overflow to Infinity and the sign of zero are not modelled.
mod Print
mod Parse
mod Kind
unfoldable pub use Kind.*
unfoldable pub use Print.{number_text, bigint_text}
unfoldable pub use Parse.{to_number}
