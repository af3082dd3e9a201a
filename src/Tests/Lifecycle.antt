-- ===== src/Tests/Lifecycle.antt =====
-- Timeouts, and lines that open and close.
use libmodbuspp.Base.{
  ℕ, ◌+◌, ◌*◌, ◌^◌, ◌<◌, ◌≡◌, refl, arith, inl, Bool, true, false, some, none, [], ◌∷◌, All, pos,
  ◌==◌, if◌then◌else◌, ok,
}
use libmodbuspp.Message.{tcp, rtu}
use libmodbuspp.Slave.{minus_one}
use libmodbuspp.Message.Create.{Limits}
use libmodbuspp.Device.{Line, Backend, Device}
use libmodbuspp.Timeout.{set_value}
use libmodbuspp.Timeout.Laws.{set_value-normalises}
use libmodbuspp.Router.{Router, open_router}
use libmodbuspp.Router.Open.{Named, IsOpen, IsClosed, open_router_atomic}

set_value-normalises_example :
    ((set_value 3 2500000).usec < 1000000)
    × ((set_value 3 2500000).sec < 2 ^ 32)
    × ((set_value 3 2500000).sec * 1000000 + (set_value 3 2500000).usec ≡ 5500000)
set_value-normalises_example = set_value-normalises 3 2500000 (omega arith) (omega arith)

-- Only the context 1 connects; the state counts the calls.
abbrev pub one_answers : Line ℕ
one_answers = record {
  connect = λ w ctx. (w + 1, if ctx == 1 then pos 0 else minus_one);
  close = λ w ctx. w + 1;
  listen = λ w ctx. (w + 1, pos 7);
  close_socket = λ w sock. w + 1;
}

-- The numbers of libmodbus.
abbrev pub limits : Limits
limits = record {
  header_length = λ n. elim n [ tcp ↦ 7 | _ ↦ 1 ];
  max_adu_length = λ n. elim n [ tcp ↦ 260 | _ ↦ 256 ];
  tcp_slave = 255;
}

abbrev master : ℕ → Device
master ctx = record {
  opened = false;
  backend = some (record { net = rtu; ctx = ctx });
  recovery_link = false;
  debug = false;
}

abbrev listener : Backend
listener = record { net = tcp; ctx = 9 }

-- A router to two masters, the second of which does not answer.
abbrev pub router : Router
router = record {
  server = record {
    device = record {
      opened = false;
      backend = some listener;
      recovery_link = false;
      debug = false;
    };
    sock = minus_one;
    request = none;
    slaves = [];
    receiving = false;
    daemon = false;
    stop_taken = false;
  };
  masters = ((b'a' ∷ []), master 1) ∷ ((b'b' ∷ []), master 2) ∷ [];
}

open_router_atomic_example :
    (r' : Router) × (w' : ℕ) × (answer : Bool) × (open_router one_answers limits router 0
      ≡ ok (r', w', answer))
    × (answer ≡ true → All (Named IsOpen) r'.masters)
    × (answer ≡ false → All (Named IsClosed) r'.masters)
open_router_atomic_example =
    open_router_atomic one_answers limits router listener 0 (omega arith) refl
      (inl refl, (inl refl, tt))
