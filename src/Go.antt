-- ===== src/Go.antt =====
-- What the program uses of Go's packages strconv and net/url, on byte strings.
pub mod Decimal
pub mod Url
pub mod Query
pub mod Path
