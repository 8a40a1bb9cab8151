-- ===== src/Js.antt =====
-- What the program uses of JavaScript itself: strings as lists of code units, the values of type
-- `number` that its guards tell apart, insertion-ordered sets, and stable sorting.
pub mod Texts
pub mod Numbers
pub mod Digits
pub mod Doubles
pub mod Integers
pub mod Json
pub mod Sets
pub mod Indexes
pub mod Sorting
