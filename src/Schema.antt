-- ===== src/Schema.antt =====
-- packages/schemas/src: the contract's data. Texts are `String`; an enumeration is a data type
-- with an instance of `EqTest`. A score is a JavaScript number of which the code reads only the
-- order, so it is kept in a common unit; `nan` is the value that fails every comparison.
mod Taxonomy
mod Turn
mod Policy
mod Overrides
mod Demand
pub use Taxonomy.*
pub use Turn.*
pub use Policy.*
pub use Overrides.*
pub use Demand.*
