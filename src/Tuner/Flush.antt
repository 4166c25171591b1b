-- ===== src/Tuner/Flush.antt =====
-- `tuner_write_registers` as a whole.
use rf.Prelude.{ℕ, ◌<◌, bit_and, ◌≡◌, refl, ap, ◌∙◌, arith}
use rf.Prelude.{Bool, true, ◌&&◌, leb, ◌==◌, if◌then◌else◌, ==_iff, some, none, get_or}
use rf.Prelude.{Ends, Ends-bind, Ends-mono, modify, all_below, all_below_sound}
use rf.Bits.{bit, bit-le-one, bit-bit_and, not32}
use rf.Usb.{Libusb}
use rf.Tuner.Defs.{Tuner, Session, registers_write_mask, write_loop, write_registers}
use rf.Tuner.Chip.{known}
use rf.Tuner.Runs.{Flushed, Spared, HasShape, pending, write_loop_lem}

-- The registers that a mask selects: the first four are never written.
abbrev pub selected : ℕ → ℕ → Bool
selected register_mask r = leb 4 r && bit register_mask r == 1

-- A successful write: the shadow is as before but for the dirty bits of the mask, which are
-- cleared, and the chip has the shadow's value in each selected register, and no other change.
pub record Written (register_mask : ℕ) (s s' : Session) : Type 0 where
  pub tuner_after : s'.tuner ≡ record s.tuner {
    dirty = bit_and s.tuner.dirty (not32 (bit_and register_mask registers_write_mask));
  }
  pub chip_after :
      (r : ℕ)
      → r < 32
      → known s'.log r
        ≡ (if selected register_mask r then some (get_or s.tuner.registers r 0) else known s.log r)

write_mask_digits : (r : ℕ) → r < 32 → bit registers_write_mask r ≡ (if leb 4 r then 1 else 0)
write_mask_digits r h =
    (==_iff _ _).0
      (all_below_sound 32 (λ i. bit registers_write_mask i == (if leb 4 i then 1 else 0)) r table h)
  where
    table : all_below 32 (λ i. bit registers_write_mask i == (if leb 4 i then 1 else 0)) ≡ true
    table = unfold all_below bit in refl

module _ (register_mask : ℕ) where
  selected_lem :
      (r : ℕ)
      → r < 32
      → pending (bit_and register_mask registers_write_mask) 0 none r ≡ selected register_mask r
  selected_lem r h = ground (
    arith,
    bit-bit_and register_mask registers_write_mask r,
    write_mask_digits r h,
    bit-le-one register_mask r,
  )

  -- With 32 shadow registers, a successful write leaves the shadow registers as they were and
  -- clears the dirty bits of the mask; the chip then has the shadow's value in each register from
  -- 4 on that the mask selects, and no other change. A write that fails leaves the shadow and its
  -- dirty bits as they were, and changes no register that the mask does not select.
  pub write_registers_lem :
      (respond : Libusb) (s : Session)
      → HasShape s
      → Ends
          (λ _. Written register_mask s)
          (Spared (selected register_mask) s)
          (write_registers respond register_mask s)
  unfolding write_registers modify
  write_registers_lem respond s shape =
      Ends-bind (λ _. Flushed (pending mask 0 none) s) _ _ (write_loop respond mask 33 0 none) _ s
        (Ends-mono _ _ _ _ (write_loop respond mask 33 0 none s) (λ _ t p. p)
          (λ t p. (p.0, λ r k out. p.1 r k (selected_lem r k ∙ out)))
          (write_loop_lem respond mask 33 0 none s refl tt shape))
        λ _ t p. record {
          tuner_after = ap (λ (x : Tuner). record x { dirty = bit_and x.dirty (not32 mask) }) p.0;
          chip_after = λ r k. p.1 r k ∙ rw (selected_lem r k);
        }
    where
      mask : ℕ
      mask = bit_and register_mask registers_write_mask
