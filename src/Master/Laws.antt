-- ===== src/Master/Laws.antt =====
-- The slaves of a master.
use libmodbuspp.Base.{
  ◌≡◌, ◌≢◌, refl, ap, ◌⊎◌, inl, inr, Option, none, some, find, put, find-put_self, find-put_ne, ℤ,
  pos, negsuc, zero, suc, false, eqb_ℤ, arith, ok, thrown, out_of_range, invalid_argument,
  runtime_error,
}
use libmodbuspp.Slave
use libmodbuspp.Slave.{Slave}
use libmodbuspp.Device.{Backend, is_valid}
use libmodbuspp.Master.{Master, MasterHost, view, kept_or_made, slave_at, add_slave}

eqb_ℤ-cases : (a : ℤ) → (a ≡ pos 0) ⊎ ((a ≢ pos 0) × (eqb_ℤ a (pos 0) ≡ false))
eqb_ℤ-cases (pos zero) = inl refl
eqb_ℤ-cases (pos (suc n)) = inr ((λ e. absurd (ground (arith, e))), ground arith)
eqb_ℤ-cases (negsuc n) = inr ((λ e. absurd (ground (arith, e))), ground arith)

-- A slave as its constructor leaves it, with this master.
abbrev pub new_slave : Master → ℤ → Slave
new_slave m addr = record {
  pdu_addressing = false;
  id = addr;
  dev = some (record { valid = is_valid m.device; opened = m.device.opened });
}

-- `m'` is `m` with a slave `addr`: the one that is there, or a new one.
pub record HasAdded (m : Master) (addr : ℤ) (m' : Master) : Type 0 where
  pub same_device : m'.device ≡ m.device
  pub others_same : (j : ℤ) → addr ≢ j → slave_at m' j ≡ slave_at m j
  pub added :
      ((slv : Slave) × (slave_at m addr ≡ ok slv) × (slave_at m' addr ≡ ok slv))
      ⊎ ((slave_at m addr ≡ thrown out_of_range) × (slave_at m' addr ≡ ok (new_slave m addr)))

module _ {W : Type 0} (h : MasterHost W) (m : Master) (w : W) (addr : ℤ) where
  abbrev after : Master
  after = record m { slaves = put m.slaves addr (kept_or_made h m addr) }

  abbrev kept_of : Option Slave → Slave
  kept_of o = elim o [ none ↦ Slave.create addr (some (view m.device)) | some slv ↦ slv ]

  after-HasAdded : HasAdded m addr after
  unfolding slave_at Slave.create
  after-HasAdded = record {
    same_device = refl;
    others_same =
        λ j ne. rw (slave_at, find-put_ne m.slaves addr j (kept_or_made h m addr) ne) refl;
    added = kept (find m.slaves addr) refl;
  }
    where
      kept :
          (o : Option Slave)
          → find m.slaves addr ≡ o
          → ((slv : Slave) × (slave_at m addr ≡ ok slv) × (slave_at after addr ≡ ok slv))
            ⊎ ((slave_at m addr ≡ thrown out_of_range)
                × (slave_at after addr ≡ ok (new_slave m addr)))
      kept none e = inr (
        rw (slave_at, e) refl,
        rw (slave_at, find-put_self m.slaves addr (kept_or_made h m addr))
            (ap (λ o. ok (kept_of o)) e),
      )
      kept (some slv) e = inl (
        slv,
        rw (slave_at, e) refl,
        rw (slave_at, find-put_self m.slaves addr (kept_or_made h m addr))
            (ap (λ o. ok (kept_of o)) e),
      )

  -- `addSlave` throws on a master without a backend, and for a number that libmodbus refuses. Else
  -- it returns: `operator []` then gives under that number the slave that was there before or, where
  -- there was none, a new one with this number and master, and for every other number what it gave
  -- before.
  pub add_slave-slave_at :
      ((m.device.backend ≡ none) × (add_slave h m w addr ≡ thrown runtime_error))
      ⊎ ((b : Backend) × (m.device.backend ≡ some b)
          × ((((h.set_slave w b.ctx addr).1 ≢ pos 0)
                × (add_slave h m w addr ≡ thrown invalid_argument))
              ⊎ (((h.set_slave w b.ctx addr).1 ≡ pos 0)
                  × (m' : Master) × (add_slave h m w addr ≡ ok (m', (h.set_slave w b.ctx addr).0))
                  × HasAdded m addr m')))
  unfolding add_slave
  add_slave-slave_at = by_backend m.device.backend refl
    where
      by_answer :
          (b : Backend) (rc : ℤ)
          → m.device.backend ≡ some b
          → (h.set_slave w b.ctx addr).1 ≡ rc
          → ((rc ≢ pos 0) × (add_slave h m w addr ≡ thrown invalid_argument))
            ⊎ ((rc ≡ pos 0)
                × (m' : Master) × (add_slave h m w addr ≡ ok (m', (h.set_slave w b.ctx addr).0))
                × HasAdded m addr m')
      by_answer b rc e f = elim (eqb_ℤ-cases rc) [
        | inl same ↦ inr (same, after, rw (e, f, same) refl, after-HasAdded)
        | inr (ne, other) ↦ inl (ne, rw (e, f, other) refl)
      ]

      by_backend :
          (o : Option Backend)
          → m.device.backend ≡ o
          → ((o ≡ none) × (add_slave h m w addr ≡ thrown runtime_error))
            ⊎ ((b : Backend) × (o ≡ some b)
                × ((((h.set_slave w b.ctx addr).1 ≢ pos 0)
                      × (add_slave h m w addr ≡ thrown invalid_argument))
                    ⊎ (((h.set_slave w b.ctx addr).1 ≡ pos 0)
                        × (m' : Master) × (add_slave h m w addr
                            ≡ ok (m', (h.set_slave w b.ctx addr).0))
                        × HasAdded m addr m')))
      by_backend none e = inl (refl, rw e refl)
      by_backend (some b) e = inr (b, refl, by_answer b (h.set_slave w b.ctx addr).1 e refl)
