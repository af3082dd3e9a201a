-- ===== src/RtuLayer/Settings.antt =====
-- The settings of a serial line, such as `9600E1`: src/rtulayer.cpp. A text is the list of its codes.
pub mod Laws
use libmodbuspp.Base.{
  ℕ, ◌-◌, Bool, ◌||◌, Option, none, some, List, length, get_or, leb, ◌==◌, if◌then◌else◌, ℤ, pos,
}

abbrev pub even : ℕ
even = b'E'

abbrev pub odd : ℕ
odd = b'O'

abbrev pub no_parity : ℕ
no_parity = b'N'

-- The last but one character.
unfoldable pub parity : List ℕ → ℕ
parity settings =
    let s = length settings in
    let c = get_or settings (s - 2) 0 in
    if leb 2 s then (if (c == even) || (c == odd) then c else no_parity) else no_parity

unfoldable pub stop : List ℕ → ℕ
stop settings = if parity settings == no_parity then 2 else 1

-- `std::stoi` is an argument, without a value where it throws.
unfoldable pub baud : (List ℕ → Option ℤ) → List ℕ → ℤ
baud stoi settings = elim (stoi settings) [ none ↦ pos 19200 | some b ↦ b ]
