-- ===== src/Js.antt =====
-- What the modules use of JavaScript: values, numbers and texts of the language, regular
-- expressions, thrown errors, and the host's functions that are not in the repository.
pub mod Number
pub mod Value
pub mod Text
pub mod Regex
pub mod Set
pub mod Checks
