-- ===== src/Bigint.antt =====
-- The big integers of nl-math.c.
pub mod Digits
pub mod Operations
pub mod Add
pub mod Subtract
pub mod Compare
pub mod Multiply
pub mod Differences
pub mod Signs
pub mod Ordering
pub mod Text
pub mod Decimal
pub mod Parsing
pub mod Reading
pub mod Printing
pub mod RoundTrip
pub mod Machine
pub mod Conversion
pub mod Narrowing
pub mod Division
pub mod Quotient
pub mod Rounding
pub mod Estimate
pub mod Tops
pub mod Divide
pub mod LongDivision
pub mod DivMod
pub mod Operators
mod Tests
