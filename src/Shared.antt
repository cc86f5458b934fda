-- ===== src/Shared.antt =====
-- The names that the other modules share: the libraries', passed on, and those of the children.
pub mod Tests
pub mod Lists
pub mod Text
pub mod Words
pub mod Int
pub mod Number
pub mod Json
pub mod Keys
pub mod Effects
pub mod Yields
pub mod Str
pub mod Sort
pub mod Ratio
pub mod Elements
pub mod Top
pub mod Same
pub mod SameLaws
pub use Tests.*
pub use Lists.*
pub use Int.{ℤ, pos, negsuc}
pub use Json.{
  Value, Items, Dict, null, bool, int, float, text, arr, obj, nil, cons, end, entry, get, put,
  merge,
}
unfoldable pub use Json.{get, put, merge, has, truthy, of_items, to_items}
pub use Json.{get-put, get-merge_absent, get-absent, of_items-to_items}
pub use Keys.{IsKeyed, IsKeyed-put, get-merge}
pub use Effects.{
  ChannelAdapterError, Error, attribute_error, Result, ok, err, key_error, value_error,
  runtime_error, integrity_error, type_error, adapter_error, Exec, pure, raise, gets, lift, proceed,
  ◌>>=◌, ◌>>◌,
}
