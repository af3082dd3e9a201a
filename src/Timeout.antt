-- ===== src/Timeout.antt =====
-- `Timeout` of src/timeout.cpp, as far as it computes on integers.
pub mod Laws
use libmodbuspp.Base.{ℕ, ◌+◌, ◌-◌, ◌*◌, ◌/◌, ◌%◌, ◌^◌, ltb, if◌then◌else◌}

pub record Timeout : Type 0 where
  pub sec : ℕ
  pub usec : ℕ

-- `setValue (s, us)`: both are `uint32_t`, and `ts` is at most 4294, so that `us` does not wrap.
unfoldable pub set_value : ℕ → ℕ → Timeout
set_value s us =
    let ts = us / 1000000 in
    if ltb 999999 us
    then record { sec = (s + ts) % 2 ^ 32; usec = us - ts * 1000000 }
    else record { sec = s; usec = us }
