-- ===== src/Float.antt =====
-- The floating-point numbers that the code computes with, as an interface with its laws, and an
-- executable implementation. The values are those that are not NaN; where an array may hold NaN or
-- an infinity the models use `Option` and say so.
mod Defs
mod Fixed
pub mod Trig
pub use Defs.*
unfoldable pub use Fixed.{isqrt}
pub use Fixed.{Millis, millis, milli, Millis-IsOrdered}
