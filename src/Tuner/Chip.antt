-- ===== src/Tuner/Chip.antt =====
-- The chip as the transfers show it: what a register was last set to over the I2C bus. After a
-- write that failed the registers that it covers are unknown.
use rf.Prelude.{ℕ, ◌+◌, ◌-◌, Bool, ◌&&◌, ltb, leb, ◌==◌, if◌then◌else◌, Option, none}
use rf.Prelude.{[], ◌∷◌, length, get_elem?}
use rf.Usb.{Transfer, Log, i2cwfx3}
use rf.Tuner.Defs.{r820t2_addr}

abbrev pub inside : ℕ → ℕ → ℕ → Bool
inside from n r = leb from r && ltb r (from + n)

abbrev pub sets_register : Transfer → ℕ → Bool
sets_register t r =
    (t.request == i2cwfx3 && t.value == r820t2_addr) && inside t.index (length t.bytes) r

unfoldable pub known : Log → ℕ → Option ℕ
known [] r = none
known (e ∷ log) r =
    if sets_register e.transfer r
    then (if e.reply.failed then none else get_elem? e.transfer.bytes (r - e.transfer.index))
    else known log r
