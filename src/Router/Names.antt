-- ===== src/Router/Names.antt =====
-- The masters of a router by their names: src/router.cpp.
use libmodbuspp.Base.{
  ℕ, Bool, true, false, not, ◌&&◌, Option, none, some, List, [], ◌∷◌, ltb, ◌==◌, if◌then◌else◌,
  Outcome, ok, thrown, ◌>>=◌, logic_error, out_of_range,
}
use libmodbuspp.Message.Create.{Limits}
use libmodbuspp.Device.{Line, Device}
use libmodbuspp.Server.Task.{Host}
use libmodbuspp.Server.Control.{is_open, server_close}
use libmodbuspp.Router.{Router, Masters, close_masters}

-- `operator<` on texts.
unfoldable pub less : List ℕ → List ℕ → Bool
less [] [] = false
less [] (y ∷ ys) = true
less (x ∷ xs) [] = false
less (x ∷ xs) (y ∷ ys) =
    let rest = less xs ys in if ltb x y then true else (if x == y then rest else false)

abbrev pub same_text : List ℕ → List ℕ → Bool
same_text a b = not (less a b) && not (less b a)

unfoldable pub find_master : Masters → List ℕ → Option Device
find_master [] name = none
find_master ((n, m) ∷ ms) name =
    let rest = find_master ms name in if same_text n name then some m else rest

-- In the order of the names; a master of that name is replaced.
unfoldable pub place_master : Masters → List ℕ → Device → Masters
place_master [] name d = (name, d) ∷ []
place_master ((n, m) ∷ ms) name d =
    let rest = place_master ms name d in
    if same_text n name
    then (name, d) ∷ ms
    else (if less name n then (name, d) ∷ (n, m) ∷ ms else (n, m) ∷ rest)

-- A `Master` that was just constructed.
abbrev pub new_device : Device
new_device = record { opened = false; backend = none; recovery_link = false; debug = false }

unfoldable pub has_master : Router → List ℕ → Bool
has_master r name = elim (find_master r.masters name) [ none ↦ false | some m ↦ true ]

unfoldable pub master_at : Router → List ℕ → Outcome Device
master_at r name = elim (find_master r.masters name) [ none ↦ thrown out_of_range | some m ↦ ok m ]

unfoldable pub add_master : Router → List ℕ → Outcome Router
add_master r name =
    if is_open r.server
    then thrown logic_error
    else ok (record r { masters = place_master r.masters name new_device })

module _ {W : Type 0} (line : Line W) (lim : Limits) (h : Host W) where
  -- `Router::close`
  unfoldable pub close_router : Router → W → Outcome (Router × W)
  close_router r w =
      let closing : Outcome (Router × W) =
        (server_close line lim h r.server w >>= λ s. close_masters line r.masters s.1 >>= λ m.
        ok (record { server = s.0; masters = m.0 }, m.1)) in
      if is_open r.server then closing else ok (r, w)
