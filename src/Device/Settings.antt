-- ===== src/Device/Settings.antt =====
-- What a device asks of its context, and what is set on it: src/device.cpp.
use libmodbuspp.Base.{
  ℕ, Bool, false, not, ◌&&◌, none, some, if◌then◌else◌, ℤ, pos, eqb_ℤ, leb_ℤ, Outcome, ok, thrown,
  runtime_error, domain_error,
}
use libmodbuspp.Message.{Net, rtu, tcp, no_net}
use libmodbuspp.Timeout.{Timeout}
use libmodbuspp.Device.{Backend, Device}

-- The calls of libmodbus on a context. A call that reads a timeout returns the seconds and the
-- microseconds that it stores.
pub record Context (W : Type 0) : Type 0 where
  pub flush : W → ℕ → W × ℤ
  pub get_socket : W → ℕ → ℤ
  pub set_response_timeout : W → ℕ → Timeout → W × ℤ
  pub get_response_timeout : W → ℕ → Timeout × ℤ
  pub set_byte_timeout : W → ℕ → Timeout → W × ℤ
  pub get_byte_timeout : W → ℕ → Timeout × ℤ
  pub set_indication_timeout : W → ℕ → Timeout → W × ℤ
  pub get_indication_timeout : W → ℕ → Timeout × ℤ
  pub set_debug : W → ℕ → Bool → W × ℤ

-- `backend`, and `net` of it.
unfoldable pub backend_of : Device → Outcome Backend
backend_of d = elim d.backend [ none ↦ thrown domain_error | some b ↦ ok b ]

unfoldable pub net : Device → Net
net d = elim d.backend [ none ↦ no_net | some b ↦ b.net ]

-- `rtu` and `tcp`: the layer, where it is of that kind.
unfoldable pub rtu_of : Device → Outcome Backend
rtu_of d = elim d.backend [
  | none ↦ thrown domain_error
  | some b ↦ elim b.net [ rtu ↦ ok b | _ ↦ thrown domain_error ]
]

unfoldable pub tcp_of : Device → Outcome Backend
tcp_of d = elim d.backend [
  | none ↦ thrown domain_error
  | some b ↦ elim b.net [ tcp ↦ ok b | _ ↦ thrown domain_error ]
]

module _ {W : Type 0} (c : Context W) (d : Device) where
  -- `if (isValid ())`, with what follows on the context.
  abbrev pub on_context : {A : Type 0} → (ℕ → A) → Outcome A
  on_context call = elim d.backend [ none ↦ thrown runtime_error | some b ↦ ok (call b.ctx) ]

  abbrev succeeded : W × ℤ → W × Bool
  succeeded r = (r.0, eqb_ℤ r.1 (pos 0))

  -- What `t` holds after the call, and whether it succeeded.
  abbrev stored : Timeout × ℤ → Timeout × Bool
  stored r = (r.0, eqb_ℤ r.1 (pos 0))

  unfoldable pub flush : W → Outcome (W × ℤ)
  flush w = on_context (λ ctx. c.flush w ctx)

  unfoldable pub is_connected : W → Bool
  is_connected w = elim d.backend [
    | none ↦ false
    | some b ↦ d.opened && leb_ℤ (pos 0) (c.get_socket w b.ctx)
  ]

  unfoldable pub set_response_timeout : W → Timeout → Outcome (W × Bool)
  set_response_timeout w t = on_context (λ ctx. succeeded (c.set_response_timeout w ctx t))

  unfoldable pub response_timeout : W → Outcome (Timeout × Bool)
  response_timeout w = on_context (λ ctx. stored (c.get_response_timeout w ctx))

  unfoldable pub set_byte_timeout : W → Timeout → Outcome (W × Bool)
  set_byte_timeout w t = on_context (λ ctx. succeeded (c.set_byte_timeout w ctx t))

  unfoldable pub byte_timeout : W → Outcome (Timeout × Bool)
  byte_timeout w = on_context (λ ctx. stored (c.get_byte_timeout w ctx))

  unfoldable pub set_indication_timeout : W → Timeout → Outcome (W × Bool)
  set_indication_timeout w t = on_context (λ ctx. succeeded (c.set_indication_timeout w ctx t))

  unfoldable pub indication_timeout : W → Outcome (Timeout × Bool)
  indication_timeout w = on_context (λ ctx. stored (c.get_indication_timeout w ctx))

  -- `d->debug == debug`
  abbrev same : Bool → Bool → Bool
  same a b = if a then b else not b

  unfoldable pub set_debug : W → Bool → Outcome (Device × W × Bool)
  set_debug w debug = on_context λ ctx.
      let (w', rc) = c.set_debug w ctx debug in
      let d' = if eqb_ℤ rc (pos 0) then record d { debug = debug } else d in
      (d', w', same d'.debug debug)
