-- ===== src/Receiver/Closing.antt =====
-- `rf103_close` after `rf103_open`.
use rf.Prelude.{ℕ, ◌≡◌, refl, ap, ◌∙◌, Bool, true, false, List, ◌∷◌, if◌then◌else◌, replicate}
use rf.Prelude.{Outcome, ok, err, aborted, Ends, Ends-bind, ◌>>=◌}
use rf.Double.{Doubles}
use rf.Usb.{Log, Reply, i2c_write, control}
use rf.Clock.Defs.{
  ClockSource, close_clock, power_down_clocks, send_bytes, register_clk_base, value_clk_pdn,
}
use rf.Device.Calls.{Calls, Bus, own, default}
use rf.Device.Ledger.{handle, context, configuration, held, release}
use rf.Device.Opening.{UsbDevice, close_device}
use rf.Device.OpeningLaws.{close_device-held}
use rf.Receiver.Defs.{World, clock_of}
use rf.Receiver.Opening.{System, open_receiver, close_receiver}
use rf.Receiver.Lifecycle.{IsNew, NotOpened, Closed, ClocksDown, Asked, writes, open_receiver_lem}

module _ (doubles : Doubles) (bus : Bus) (world : World) where
  powered_down :
      (c d e : ClockSource doubles) (failed : Bool)
      → d.log ≡ e.log
      → elim (if failed then err d else ok tt e)
          as (λ (o : Outcome (ClockSource doubles) (Unit {0})). Log) [
            | ok a t ↦ t.log
            | err t ↦ t.log
            | aborted ↦ c.log
          ]
        ≡ e.log
  powered_down c d e true h = h
  powered_down c d e false h = refl

  -- The clocks are told to power down, whatever the reply.
  close_clock_lem :
      (c : ClockSource doubles)
      → (r : Reply) × (close_clock doubles world.respond c
          ≡ writes register_clk_base (replicate 8 value_clk_pdn) r ∷ c.log)
  unfolding close_clock power_down_clocks send_bytes i2c_write control
  close_clock_lem c = (_, powered_down c _ _ _ refl)

  usb_closed :
      (calls : Calls) (d : UsbDevice) (c : Calls)
      → held calls ≡ configuration ∷ handle d.dev_handle ∷ context own ∷ held c
      → held (elim (close_device d calls) as (λ (o : Outcome Calls (Unit {0})). Calls) [
        | ok u t ↦ t
        | err t ↦ t
        | aborted ↦ calls
      ])
        ≡ configuration ∷ context own ∷ release (context default) (held c)
  usb_closed calls d c h = go (close_device d calls) (close_device-held d c calls h)
    where
      go :
          (o : Outcome Calls (Unit {0}))
          → Ends
              (λ _ u. held u ≡ configuration ∷ context own ∷ release (context default) (held c))
              (λ _. ⊥)
              o
          → held (elim o [ ok u t ↦ t | err t ↦ t | aborted ↦ calls ])
            ≡ configuration ∷ context own ∷ release (context default) (held c)
      go (ok u t) e = e
      go (err t) e = absurd e
      go aborted e = absurd e

  -- What is left after a receiver was opened in `s` and closed: all transfers, and the rest.
  pub record Over (s t : System) : Type 0 where
    pub closed : Closed doubles bus world s t
    pub opening : Log
    pub asking : Log
    pub reply : Reply
    pub clocks_down : ClocksDown s.log opening
    pub asked : Asked doubles bus world opening asking
    pub down_again : t.log ≡ writes register_clk_base (replicate 8 value_clk_pdn) reply ∷ asking

  -- `rf103_open` and then `rf103_close`: the handle is closed, and of the USB device the
  -- configuration and the own context stay; the device memory is as before; the transfers are
  -- those of the opening and one that tells the eight clocks to power down. If the opening failed,
  -- the USB device was not opened and nothing was transferred, or it was closed again.
  pub open_close_receiver_lem :
      (stack : List ℕ) (index imagefile : ℕ) (s : System)
      → Ends
          (λ _ t. Over s t)
          (NotOpened doubles bus world s)
          ((open_receiver doubles bus world stack index imagefile >>= λ o t.
              ok tt (close_receiver doubles bus world o t.calls))
            s)
  unfolding close_receiver
  open_close_receiver_lem stack index imagefile s =
      Ends-bind (IsNew doubles bus world s) (λ _ t. Over s t) (NotOpened doubles bus world s) _ _ s
        (open_receiver_lem doubles bus world stack index imagefile s)
        (λ o t n.
          let (r, down) = close_clock_lem (clock_of doubles o.receiver) in
          record {
            closed = (
              usb_closed t.calls o.usb_device s.calls n.holds,
              rw n.no_adc (n.receiver_memory ∙ n.memory),
            );
            opening = n.transfers.0;
            asking = t.log;
            reply = r;
            clocks_down = n.transfers.1;
            asked = n.transfers.2;
            down_again =
                down
                ∙ ap (λ (l : Log). writes register_clk_base (replicate 8 value_clk_pdn) r ∷ l)
                    n.log;
          })
