-- ===== src/Json.antt =====
-- The configuration of slaves from JSON: src/json_p.h and the `Json` namespaces of src/slave.cpp,
-- src/bufferedslave.cpp and src/server.cpp.
pub mod Numbers
pub mod Bits
pub mod Blocks
pub mod ConfiguredBits
pub mod Devices
pub mod Kinds
pub mod Files
pub mod Slaves
pub mod Routers
use libmodbuspp.Base.{ℕ, Bool, Option, none, some, List, ℤ, Outcome, ok, thrown, fault, json_error}
use libmodbuspp.Data.{Endian}
use libmodbuspp.BufferedSlave.Tables.{Table}

-- Values of nlohmann::json, and the conversions of strings of the standard library, which return
-- how many characters they have read too, in base 0; `stoull` serves for `stoul`, which reads 64
-- bits as well. `none` is an exception of the package. `number` gives the
-- memory of a value of so many bytes.
pub record Reader (J : Type 0) : Type 0 where
  pub is_string : J → Bool
  pub text : J → List ℕ
  pub to_bool : J → Option Bool
  pub to_int : J → Option ℤ
  pub number : J → ℕ → Option (List ℕ)
  pub stoull : List ℕ → Outcome (ℕ × ℕ)
  pub stoll : List ℕ → Outcome (ℤ × ℕ)

-- `enum DataEnum`, without the floating point types.
pub data DataEnum : Type 0 where
  uint16 int16 uint32 int32 uint64 int64 : DataEnum

-- The members of a block that the code looks up. `values` is missing where it is no array too.
pub record Block (J : Type 0) : Type 0 where
  pub table : Option Table
  pub quantity : Option ℤ
  pub starting_address : Option ℤ
  pub data_type : Option DataEnum
  pub endian : Option Endian
  pub values_address : Option ℤ
  pub values : Option (List J)

pub record SlaveConfig (J : Type 0) : Type 0 where
  pub id : Option ℤ
  pub pdu_addressing : Option Bool
  pub blocks : List (Block J)

-- A member that has to be there: `operator []` of a constant object is undefined without it.
abbrev pub mandatory : {A : Type 0} → Option A → Outcome A
mandatory none = fault
mandatory (some a) = ok a

-- A conversion that throws where it has no value.
abbrev pub converted : {A : Type 0} → Option A → Outcome A
converted none = thrown json_error
converted (some a) = ok a

abbrev pub get_or_default : {A : Type 0} → Option A → A → A
get_or_default none a = a
get_or_default (some b) a = b

-- `DataType::size`
unfoldable pub size_of : DataEnum → ℕ
size_of t = elim t [ uint32 ↦ 4 | int32 ↦ 4 | uint64 ↦ 8 | int64 ↦ 8 | other ↦ 2 ]
