-- ===== src/Receiver/Lifecycle.antt =====
-- What `rf103_open` and `rf103_close` leave of the USB device, the clock source and the memory.
use rf.Prelude.{
  ℕ, ◌≡◌, refl, ap, subst, ◌∙◌, Bool, false, ◌⊎◌, inl, inr, none, List, [], ◌∷◌, if◌then◌else◌,
  replicate,
}
use rf.Prelude.{Outcome, ok, err, aborted, Ends, Ends-bind, Ends-mono, Ends-split, ◌>>=◌, modify}
use rf.Double.{Doubles}
use rf.Usb.{
  Log, Event, Reply, i2c_write, i2c_write_byte, testfx3, control, write_request_type, i2cwfx3,
  si5351_addr,
}
use rf.Gpio.Defs.{initial_gpio_register}
use rf.Clock.Defs.{
  ClockSource, open_clock, power_down_clocks, send_bytes, send_byte, register_clk_base,
  value_clk_pdn, register_crystal_load, value_crystal_load_6pf,
}
use rf.Tuner.Startup.{has_tuner}
use rf.Device.Calls.{Calls, Bus, own, default}
use rf.Device.Ledger.{handle, context, configuration, held, release}
use rf.Device.Opening.{UsbDevice, open_device, close_device}
use rf.Device.OpeningLaws.{IsReady, Left, open_device_lem, close_device-held}
use rf.Receiver.Defs.{World, focus}
use rf.Receiver.Defs.RfMode.{hf_mode}
use rf.Receiver.Opening.{
  System, Opened, open_clock_source, find_tuner, make_receiver, clock_or_close, open_receiver,
}

-- An I2C write to the clock generator, with the reply.
abbrev pub writes : ℕ → List ℕ → Reply → Event
writes register bytes reply = record {
  transfer = record {
    request_type = write_request_type;
    request = i2cwfx3;
    value = si5351_addr;
    index = register;
    bytes = bytes;
  };
  reply = reply;
}

-- A write that succeeded is newer than `log`.
abbrev pub Written : ℕ → List ℕ → Log → Log → Type 0
Written register bytes log t =
    (r : Reply) × (r.failed ≡ false) × (t ≡ writes register bytes r ∷ log)

-- The crystal's load was set and the eight clocks were powered down.
abbrev pub ClocksDown : Log → Log → Type 0
ClocksDown log t =
    (u : Log) × Written register_crystal_load (value_crystal_load_6pf ∷ []) log u
    × Written register_clk_base (replicate 8 value_clk_pdn) u t

module _ (doubles : Doubles) (bus : Bus) (world : World) where
  -- One transfer of a write.
  reply_of : ℕ → List ℕ → Log → Reply
  reply_of register bytes log = world.respond log (record {
    request_type = write_request_type;
    request = i2cwfx3;
    value = si5351_addr;
    index = register;
    bytes = bytes;
  })

  replied :
      (register : ℕ) (bytes : List ℕ) (c d : ClockSource doubles)
      → d.log ≡ writes register bytes (reply_of register bytes c.log) ∷ c.log
      → Ends
          (λ _ d. Written register bytes c.log d.log)
          (λ _. Unit {0})
          (if (reply_of register bytes c.log).failed then err d else ok tt d)
  replied register bytes c d e =
      Ends-split (λ _ d. Written register bytes c.log d.log) (λ _. Unit {0})
        (reply_of register bytes c.log).failed (err d) (ok tt d) (λ f. tt)
        (λ f. (reply_of register bytes c.log, f, e))

  send_bytes-Written :
      (register : ℕ) (bytes : List ℕ) (c : ClockSource doubles)
      → Ends
          (λ _ d. Written register bytes c.log d.log)
          (λ _. Unit {0})
          (send_bytes doubles world.respond register bytes c)
  unfolding send_bytes i2c_write control reply_of
  send_bytes-Written register bytes c = replied register bytes c _ refl

  send_byte-Written :
      (register value : ℕ) (c : ClockSource doubles)
      → Ends
          (λ _ d. Written register (value ∷ []) c.log d.log)
          (λ _. Unit {0})
          (send_byte doubles world.respond register value c)
  unfolding send_byte i2c_write_byte control reply_of
  send_byte-Written register value c = replied register (value ∷ []) c _ refl

  open_clock_lem :
      (c : ClockSource doubles)
      → Ends (λ _ d. ClocksDown c.log d.log) (λ _. Unit {0}) (open_clock doubles world.respond c)
  unfolding open_clock power_down_clocks modify ◌>>=◌
  open_clock_lem c =
      Ends-bind (λ _ d. Written register_crystal_load (value_crystal_load_6pf ∷ []) c.log d.log)
        (λ _ d. ClocksDown c.log d.log) (λ _. Unit {0})
        (send_byte doubles world.respond register_crystal_load value_crystal_load_6pf) _ c
        (send_byte-Written register_crystal_load value_crystal_load_6pf c)
        (λ _ d w.
          let e : ClockSource doubles = record {
            crystal_frequency = doubles.of_int 27_000_000;
            frequency_correction = doubles.decimal 9_999_314 7;
            log = d.log;
          } in
          Ends-mono (λ _ f. Written register_clk_base (replicate 8 value_clk_pdn) d.log f.log)
            (λ _ f. ClocksDown c.log f.log) (λ _. Unit {0}) (λ _. Unit {0})
            (send_bytes doubles world.respond register_clk_base (replicate 8 value_clk_pdn) e)
            (λ _ f v. (d.log, w, v)) (λ _ u. u)
            (send_bytes-Written register_clk_base (replicate 8 value_clk_pdn) e))

  -- A step that leaves the calls and the memory alone.
  abbrev Beside : System → System → Type 0
  Beside s t = (t.calls ≡ s.calls) × (t.memory ≡ s.memory)

  lifted :
      (s : System) (o : Outcome (ClockSource doubles) (Unit {0}))
      → Ends (λ _ d. ClocksDown s.log d.log) (λ _. Unit {0}) o
      → Ends
          (λ _ t. ClocksDown s.log t.log × Beside s t)
          (Beside s)
          (elim o [
            | ok a c ↦ ok c (record s { log = c.log })
            | err c ↦ err (record s { log = c.log })
            | aborted ↦ aborted
          ])
  lifted s (ok a c) h = (h, (refl, refl))
  lifted s (err c) h = (refl, refl)
  lifted s aborted h = h

  open_clock_source_lem :
      (s : System)
      → Ends
          (λ _ t. ClocksDown s.log t.log × Beside s t)
          (Beside s)
          (open_clock_source doubles bus world s)
  unfolding open_clock_source
  open_clock_source_lem s = lifted s _ (open_clock_lem _)

  -- The USB device is closed again.
  abbrev pub Closed : System → System → Type 0
  Closed s t =
      (held t.calls ≡ configuration ∷ context own ∷ release (context default) (held s.calls))
      × (t.memory ≡ s.memory)

  closing :
      (s t : System) (o : Outcome Calls (Unit {0}))
      → t.memory ≡ s.memory
      → Ends
          (λ _ u. held u ≡ configuration ∷ context own ∷ release (context default) (held s.calls))
          (λ _. ⊥)
          o
      → Ends {A = ClockSource doubles}
          (λ _ _. ⊥)
          (Closed s)
          (elim o [
            | ok u calls ↦ err (record t { calls = calls })
            | err calls ↦ err (record t { calls = calls })
            | aborted ↦ aborted
          ])
  closing s t (ok u calls) m h = (h, m)
  closing s t (err calls) m h = absurd h
  closing s t aborted m h = h

  -- `s` is before the device was opened, and `t` after.
  abbrev Holding : System → UsbDevice → System → Type 0
  Holding s d t =
      (held t.calls ≡ configuration ∷ handle d.dev_handle ∷ context own ∷ held s.calls)
      × (t.memory ≡ s.memory)

  clock_or_close_lem :
      (s t : System) (d : UsbDevice)
      → Holding s d t
      → Ends
          (λ _ u. ClocksDown t.log u.log × Holding s d u)
          (Closed s)
          (clock_or_close doubles bus world d t)
  unfolding clock_or_close
  clock_or_close_lem s t d (h, m) =
      go (open_clock_source doubles bus world t) (open_clock_source_lem t)
    where
      go :
          (o : Outcome System (ClockSource doubles))
          → Ends (λ _ u. ClocksDown t.log u.log × Beside t u) (Beside t) o
          → Ends
              (λ _ u. ClocksDown t.log u.log × Holding s d u)
              (Closed s)
              (elim o [
                | ok c u ↦ ok c u
                | err u ↦ elim (close_device d u.calls) [
                  | ok v calls ↦ err (record u { calls = calls })
                  | err calls ↦ err (record u { calls = calls })
                  | aborted ↦ aborted
                ]
                | aborted ↦ aborted
              ])
      go (ok c u) (w, (e, f)) = (w, (ap held e ∙ h, f ∙ m))
      go (err u) (e, f) =
          Ends-mono (λ _ _. ⊥) _ (Closed s) _ _ (λ c v g. absurd g) (λ v g. g)
            (closing s u (close_device d u.calls) (f ∙ m)
              (close_device-held d s.calls u.calls (ap held e ∙ h)))
      go aborted g = g

  -- The transfer that asks the firmware for the tuner.
  abbrev pub Asked : Log → Log → Type 0
  Asked log t = (e : Event) × (e.transfer.request ≡ testfx3) × (t ≡ e ∷ log)

  find_tuner_lem :
      (stack : List ℕ) (s : System)
      → Ends (λ _ t. Asked s.log t.log × Beside s t) (λ _. ⊥) (find_tuner doubles bus world stack s)
  unfolding find_tuner has_tuner control focus
  find_tuner_lem stack s = ((_, refl, refl), (refl, refl))

  -- A new receiver with its USB device: it is in HF mode with the GPIO register that was asked for,
  -- has no tuner and no ADC yet, and its history is that of the library.
  pub record IsNew (s : System) (o : Opened doubles) (t : System) : Type 0 where
    pub ready : IsReady initial_gpio_register o.usb_device
    pub holds :
        held t.calls ≡ configuration ∷ handle o.usb_device.dev_handle ∷ context own ∷ held s.calls
    pub memory : t.memory ≡ s.memory
    pub transfers : (u : Log) × ClocksDown s.log u × Asked u t.log
    pub hf : o.receiver.rf_mode ≡ hf_mode
    pub register : o.receiver.gpio_register ≡ initial_gpio_register
    pub no_tuner : o.receiver.tuner ≡ none
    pub no_adc : o.receiver.adc ≡ none
    pub log : o.receiver.log ≡ t.log
    pub receiver_memory : o.receiver.memory ≡ t.memory

  -- The USB device was not opened, and nothing was transferred; or it was closed again.
  abbrev pub NotOpened : System → System → Type 0
  NotOpened s t =
      ((Left bus s.calls t.calls × (t.log ≡ s.log)) × (t.memory ≡ s.memory)) ⊎ Closed s t

  usb_opened :
      (s : System) (o : Outcome Calls UsbDevice)
      → Ends
          (λ d t.
            (held t ≡ configuration ∷ handle d.dev_handle ∷ context own ∷ held s.calls)
            × IsReady initial_gpio_register d)
          (Left bus s.calls)
          o
      → Ends
          (λ d t. (Holding s d t × (t.log ≡ s.log)) × IsReady initial_gpio_register d)
          (NotOpened s)
          (elim o [
            | ok d calls ↦ ok d (record s { calls = calls })
            | err calls ↦ err (record s { calls = calls })
            | aborted ↦ aborted
          ])
  usb_opened s (ok d calls) (h, r) = (((h, refl), refl), r)
  usb_opened s (err calls) h = inl ((h, refl), refl)
  usb_opened s aborted h = h

  made :
      (s t : System) (d : UsbDevice) (c : ClockSource doubles) (tuner_found : Bool)
      → Holding s d t
      → ((u : Log) × ClocksDown s.log u × Asked u t.log)
      → IsReady initial_gpio_register d
      → Ends (IsNew s) (NotOpened s) (make_receiver doubles bus world d c tuner_found t)
  unfolding make_receiver
  made s t d c tuner_found (h, m) w r = record {
    ready = r;
    holds = h;
    memory = m;
    transfers = w;
    hf = refl;
    register = r.register;
    no_tuner = refl;
    no_adc = refl;
    log = refl;
    receiver_memory = refl;
  }

  -- `rf103_open`, for every answer of libusb. Success: the USB device is as `usb_device_open`
  -- returns it and of what was acquired its handle, the own context and the configuration are
  -- held; the clocks were powered down by writes that succeeded, and then the firmware was asked
  -- for the tuner; the receiver is in HF mode with the first GPIO register, and has no tuner and no
  -- ADC. Failure: either the USB device was not opened and nothing was transferred, or it was
  -- closed again. The device memory is as it was in either case.
  pub open_receiver_lem :
      (stack : List ℕ) (index imagefile : ℕ) (s : System)
      → Ends (IsNew s) (NotOpened s) (open_receiver doubles bus world stack index imagefile s)
  unfolding open_receiver focus
  open_receiver_lem stack index imagefile s =
      Ends-bind (λ d t. (Holding s d t × (t.log ≡ s.log)) × IsReady initial_gpio_register d)
        (IsNew s) (NotOpened s) _ _ s
        (usb_opened s (open_device bus index imagefile initial_gpio_register s.calls)
          (open_device_lem bus index imagefile initial_gpio_register s.calls))
        (λ d t ((h, e), r).
          Ends-bind (λ _ u. ClocksDown t.log u.log × Holding s d u) (IsNew s) (NotOpened s)
            (clock_or_close doubles bus world d) _ t
            (Ends-mono _ (λ _ u. ClocksDown t.log u.log × Holding s d u) (Closed s) (NotOpened s) _
              (λ _ u q. q) (λ u q. inr q) (clock_or_close_lem s t d h))
            (λ c u (w, (k, m)).
              Ends-bind (λ _ v. Asked u.log v.log × Beside u v) (IsNew s) (NotOpened s)
                (find_tuner doubles bus world stack) _ u
                (Ends-mono _ (λ _ v. Asked u.log v.log × Beside u v) (λ _. ⊥) (NotOpened s)
                  (find_tuner doubles bus world stack u) (λ _ v q. q) (λ v q. absurd q)
                  (find_tuner_lem stack u))
                (λ tuner_found v (a, (f, g)).
                  made s v d c tuner_found (ap held f ∙ k, g ∙ m)
                    (u.log, subst (λ (l : Log). ClocksDown l u.log) e w, a) r)))
