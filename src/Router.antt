-- ===== src/Router.antt =====
-- `Router::Private::open` of src/router.cpp: the masters of a router, in the order of their names.
pub mod Open
pub mod Names
pub mod Sorted
use libmodbuspp.Base.{ℕ, Bool, true, false, List, [], ◌∷◌, if◌then◌else◌, Outcome, ok, ◌>>=◌}
use libmodbuspp.Message.Create.{Limits}
use libmodbuspp.Device.{Line, Device, open_device, close_device}
use libmodbuspp.Server.State.{Server, open_server}

-- `std::map <std::string, …>` in the order of its keys. Of a master only the device is needed here.
abbrev pub Masters : Type 0
Masters = List (List ℕ × Device)

pub record Router : Type 0 where
  pub server : Server
  pub masters : Masters

module _ {W : Type 0} (line : Line W) where
  -- `isOk = isOk && m.second->open ()`
  unfoldable pub open_masters : Bool → Masters → W → Outcome (Masters × W × Bool)
  open_masters good [] w = ok ([], w, good)
  open_masters false (m ∷ ms) w = open_masters false ms w >>= λ r. ok (m ∷ r.0, r.1, r.2)
  open_masters true ((n, m) ∷ ms) w =
      open_device line m w >>= λ o. open_masters o.2 ms o.1 >>= λ r. ok ((n, o.0) ∷ r.0, r.1, r.2)

  unfoldable pub close_masters : Masters → W → Outcome (Masters × W)
  close_masters [] w = ok ([], w)
  close_masters ((n, m) ∷ ms) w =
      close_device line m w >>= λ c. close_masters ms c.1 >>= λ r. ok ((n, c.0) ∷ r.0, r.1)

  -- The end of `open`: what it does with the masters by whether all is well.
  abbrev pub settle : Server → Masters → W → Bool → Outcome (Router × W × Bool)
  settle s ms w true = ok (record { server = s; masters = ms }, w, true)
  settle s ms w false =
      close_masters ms w >>= λ c. ok (record { server = s; masters = c.0 }, c.1, false)

  unfoldable pub open_router : Limits → Router → W → Outcome (Router × W × Bool)
  open_router lim r w = open_masters true r.masters w >>= λ o. elim o.2 [
    | false ↦ settle r.server o.0 o.1 false
    | true ↦ open_server line lim r.server o.1 >>= λ s. settle s.0 o.0 s.1 s.2
  ]
