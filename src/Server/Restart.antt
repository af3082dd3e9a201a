-- ===== src/Server/Restart.antt =====
-- Running a server a second time.
use libmodbuspp.Base.{◌≡◌, refl, sym, subst, arith, true, false, ok, thrown, future_error}
use libmodbuspp.Message.Create.{Limits}
use libmodbuspp.Device.{Line}
use libmodbuspp.Server.State.{Server}
use libmodbuspp.Server.Task.{Host}
use libmodbuspp.Server.Control.{is_open, is_running, run, terminate}

module _ {W : Type 0} (line : Line W) (lim : Limits) (h : Host W) where
  started :
      (s s' : Server)
      → is_running s ≡ false
      → run line lim h s ≡ ok (s', true)
      → (is_open s ≡ true) × (s' ≡ record s { daemon = true; stop_taken = true })
  unfolding run
  started s s' idle e = ground arith

  -- A server that was started, and stopped by `terminate`, cannot be started again while it is open:
  -- `run` throws.
  pub run-terminate :
      (s s' : Server) (w : W)
      → is_running s ≡ false
      → run line lim h s ≡ ok (s', true)
      → run line lim h (terminate line lim h s' w).0 ≡ thrown future_error
  unfolding run terminate
  run-terminate s s' w idle e =
      let (open_now, same) = started s s' idle e in
      subst (λ t. run line lim h (terminate line lim h t w).0 ≡ thrown future_error) (sym same)
        (rw open_now refl)
