-- ===== src/Tuner/Defs.antt =====
-- src/tuner.c: the shadow registers of the R820T2, the reads and writes of a field, and the loops
-- that read and write runs of registers over the I2C bus.
use rf.Prelude.{ℕ, zero, suc, ◌+◌, ◌-◌, ◌*◌, ◌/◌, ◌%◌, ◌^◌, bit_and, bit_or, Bool, ◌||◌, leb}
use rf.Prelude.{
  Option, none, some, List, ◌∷◌, ◌++◌, ◌==◌, if◌then◌else◌, get_or, set, slice, take, drop,
}
use rf.Prelude.{ok, err, Cmd, pure, gets, modify, check, ◌>>=◌, ◌>>◌}
use rf.Bits.{not32}
use rf.Usb.{Log, Libusb, i2c_write, i2c_read}
use rf.Tuner.Fields.{Field}

-- `struct tuner`; the USB device behind it is the bus of a session.
pub record Tuner : Type 0 where
  pub xtal_frequency : ℕ
  pub if_frequency : ℕ
  pub registers : List ℕ
  pub dirty : ℕ

-- A tuner and the transfers made so far.
pub record Session : Type 0 where
  pub tuner : Tuner
  pub log : Log

abbrev pub r820t2_registers : ℕ
r820t2_registers = 32

abbrev pub r820t2_addr : ℕ
r820t2_addr = 0x34

abbrev pub registers_read_mask : ℕ
registers_read_mask = 0xffff_ffff

abbrev pub registers_write_mask : ℕ
registers_write_mask = 0xffff_fff0

pub bit_reversals : List ℕ
bit_reversals =
    0x0 ∷ 0x8 ∷ 0x4 ∷ 0xc ∷ 0x2 ∷ 0xa ∷ 0x6 ∷ 0xe ∷ 0x1 ∷ 0x9 ∷ 0x5 ∷ 0xd ∷ 0x3 ∷ 0xb ∷ 0x7 ∷ 0xf
    ∷ List.[]

unfoldable pub r82xx_bitrev : ℕ → ℕ
unfolding bit_reversals
r82xx_bitrev byte =
    bit_or (get_or bit_reversals (bit_and byte 0xf) 0 * 2 ^ 4)
      (get_or bit_reversals (byte / 2 ^ 4) 0)
    % 2 ^ 8

unfoldable pub bitrev_all : List ℕ → List ℕ
bitrev_all List.[] = List.[]
bitrev_all (b ∷ bs) = r82xx_bitrev b ∷ bitrev_all bs

-- `registers[reg]` with the bits of the field replaced, in a `uint8_t`.
unfoldable pub insert_value : Field → ℕ → ℕ → ℕ
insert_value f v byte = bit_or (bit_and byte (not32 f.mask)) (v * 2 ^ f.shift) % 2 ^ 8

unfoldable pub get_value : Tuner → Field → ℕ
get_value t f = bit_and (get_or t.registers f.reg 0) f.mask / 2 ^ f.shift

unfoldable pub set_value : Field → ℕ → Tuner → Tuner
unfolding insert_value
set_value f v t = record t {
  registers = set t.registers f.reg (insert_value f v (get_or t.registers f.reg 0));
  dirty = bit_or t.dirty (2 ^ f.reg);
}

unfoldable pub set_field : Field → ℕ → Cmd Session (Unit {0})
set_field f v = modify (λ s. record s { tuner = set_value f v s.tuner })

-- The two assertions of `tuner_write_value`.
unfoldable pub fits : Field → ℕ → Bool
fits f v = bit_and (v * 2 ^ f.shift) (not32 f.mask) == 0

abbrev pub clear_dirty : ℕ → Session → Session
clear_dirty mask s = record s {
  tuner = record s.tuner { dirty = bit_and s.tuner.dirty (not32 mask) };
}

module _ (respond : Libusb) where
  -- An I2C write of `n` shadow registers from `from` on.
  unfoldable pub write_run : ℕ → ℕ → Cmd Session (Unit {0})
  unfolding i2c_write
  write_run from n s =
      let a = i2c_write respond r820t2_addr from (slice from n s.tuner.registers) s.log in
      if a.failed then err (record s { log = a.log }) else ok tt (record s { log = a.log })

  unfoldable pub write_value : Field → ℕ → Cmd Session (Unit {0})
  write_value f v = do
    check (fits f v)
    check (leb (2 ^ f.shift) f.mask)
    set_field f v
    write_run f.reg 1
    modify (clear_dirty (2 ^ f.reg))

  -- The loop at register `i`, with `33 - i` rounds left; `from` is where the open run began.
  unfoldable pub write_loop : ℕ → ℕ → ℕ → Option ℕ → Cmd Session (Unit {0})
  write_loop mask zero i from = pure tt
  write_loop mask (suc rounds) i from = elim (i == r820t2_registers || bit_and (2 ^ i) mask == 0) [
    | Bool.true ↦ elim from [
      | none ↦ write_loop mask rounds (i + 1) none
      | some f ↦ write_run f (i - f) >> write_loop mask rounds (i + 1) none
    ]
    | Bool.false ↦ elim from [
      | none ↦ write_loop mask rounds (i + 1) (some i)
      | some f ↦ write_loop mask rounds (i + 1) (some f)
    ]
  ]

  unfoldable pub write_registers : ℕ → Cmd Session (Unit {0})
  write_registers register_mask = do
    let mask = bit_and register_mask registers_write_mask
    write_loop mask 33 0 none
    modify (clear_dirty mask)

  -- `tuner_write_registers(this, this->registers_dirty_mask)`.
  unfoldable pub write_dirty : Cmd Session (Unit {0})
  write_dirty = do dirty ← gets (λ s. s.tuner.dirty); write_registers dirty

  -- An I2C read into `n` shadow registers from `from` on; they are bit reversed if it succeeds.
  unfoldable pub read_run : ℕ → ℕ → Cmd Session (Unit {0})
  unfolding i2c_read bitrev_all r82xx_bitrev
  read_run from n s =
      let regs = s.tuner.registers in
      let a = i2c_read respond r820t2_addr from (slice from n regs) s.log in
      let patch = λ (bytes : List ℕ). record s {
        tuner = record s.tuner { registers = take from regs ++ bytes ++ drop (from + n) regs };
        log = a.log;
      } in
      if a.failed then err (patch a.buffer) else ok tt (patch (bitrev_all a.buffer))

  unfoldable pub read_value : Field → Cmd Session ℕ
  read_value f = do
    read_run 0 (f.reg + 1)
    modify (clear_dirty (2 ^ (f.reg + 1) - 1))
    gets (λ s. get_value s.tuner f)

  unfoldable pub read_loop : ℕ → ℕ → ℕ → Option ℕ → Cmd Session (Unit {0})
  read_loop mask zero i from = pure tt
  read_loop mask (suc rounds) i from = elim (i == r820t2_registers || bit_and (2 ^ i) mask == 0) [
    | Bool.true ↦ elim from [
      | none ↦ read_loop mask rounds (i + 1) none
      | some f ↦ read_run f (i - f) >> read_loop mask rounds (i + 1) none
    ]
    | Bool.false ↦ elim from [
      | none ↦ read_loop mask rounds (i + 1) (some i)
      | some f ↦ read_loop mask rounds (i + 1) (some f)
    ]
  ]

  unfoldable pub read_registers : ℕ → Cmd Session (Unit {0})
  read_registers register_mask = do
    let mask = bit_and register_mask registers_read_mask
    read_loop mask 33 0 none
    modify (clear_dirty mask)
