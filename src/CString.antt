-- ===== src/CString.antt =====
-- What the programs use of the C string library, over the bytes in front of the terminating NUL.
mod Text
mod Token
mod Search
mod Decimal
pub use Text.*
unfoldable pub use Token.*
unfoldable pub use Search.*
unfoldable pub use Decimal.*
