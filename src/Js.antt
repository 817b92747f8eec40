-- ===== src/Js.antt =====
-- What the clients use of JavaScript: texts, numbers, JSON values, ordered maps and the stable sort.
pub mod Text
pub mod Number
pub mod LowerCase
pub mod Uri
pub mod Dict
pub mod Json
pub mod Sort
