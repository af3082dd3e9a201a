-- ===== src/Timeout/Laws.antt =====
-- The microseconds of a timeout are below a second.
use libmodbuspp.Base.{ℕ, ◌+◌, ◌*◌, ◌^◌, ◌<◌, ◌≡◌, arith}
use libmodbuspp.Timeout.{set_value}

-- `setValue (s, us)` for a time whose whole seconds fit 32 bits: the microseconds that it keeps are
-- fewer than a million, and the time is the one that was given.
pub set_value-normalises :
    (s us : ℕ)
    → us < 2 ^ 32
    → s * 1000000 + us < 2 ^ 32 * 1000000
    → ((set_value s us).usec < 1000000)
      × ((set_value s us).sec < 2 ^ 32)
      × ((set_value s us).sec * 1000000 + (set_value s us).usec ≡ s * 1000000 + us)
unfolding set_value
set_value-normalises s us h l = ground arith
