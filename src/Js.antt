-- ===== src/Js.antt =====
-- What the source uses of JavaScript itself: texts, numbers, plain objects and `JSON.stringify`.
pub mod Text
pub mod Number
pub mod Object
pub mod Utf8
pub mod Json
