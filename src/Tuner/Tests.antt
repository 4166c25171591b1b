-- ===== src/Tuner/Tests.antt =====
-- Runs of the tuner's functions at concrete inputs.
use rf.Prelude.{ℕ, ◌≡◌, inr, refl, arith, Bool, true, false, ltb, ◌==◌}
use rf.Prelude.{Option, none, some, List, [], ◌∷◌, get_or, slice, Ends}
use rf.Prelude.{◌||◌, ◌*◌}
use rf.FixedPoint.{fixed_point, fixed_point-Ieee, fixed_point_number}
use rf.Usb.{Libusb, i2cwfx3, write_request_type}
use rf.Tuner.Fields
use rf.Tuner.Defs.{Session, r820t2_addr, get_value, set_value, fits, write_value, write_registers}
use rf.Tuner.Pll.{divider_fields, compute_pll_parameters}
use rf.Tuner.Control.{set_lna_gain, set_mixer_gain, set_vga_gain}
use rf.Tuner.Startup.{init_registers_table}
use rf.Tuner.Values.{get_value-set_value_self, get_value-set_value_ne}
use rf.Tuner.Chip.{known}
use rf.Tuner.Runs.{Spared}
use rf.Tuner.Flush.{Written, selected, write_registers_lem}
use rf.Tuner.Mux.{compute_mux_parameters}
use rf.Tuner.MuxLaws.{Selected, compute_mux_parameters_lem}
use rf.Tuner.PllLaws.{Programs, divider_fields_lem}
use rf.Tuner.PllChoice.{Decided, compute_pll_parameters_lem}
use rf.Tuner.Effects.{Holds, SetsGain, write_value_lem, set_gain_all_cases}
use rf.Tuner.History.{Operation}
use rf.Tuner.History.Operation.{lna_gain, if_bandwidth, frequency, go_standby}

-- A bus on which every transfer succeeds and reads nothing.
abbrev quiet_bus : Libusb
quiet_bus log t = record { failed = false; received = [] }

-- A tuner whose initial registers have just been sent.
abbrev ready : Session
ready = record {
  tuner = record {
    xtal_frequency = 32_000_000;
    if_frequency = 7_000_000;
    registers = init_registers_table;
    dirty = 0;
  };
  log =
      record {
        transfer = record {
          request_type = write_request_type;
          request = i2cwfx3;
          value = r820t2_addr;
          index = 4;
          bytes = slice 4 28 init_registers_table;
        };
        reply = record { failed = false; received = [] };
      }
      ∷ [];
}

abbrev is_value : Option ℕ → ℕ → Bool
is_value none x = false
is_value (some y) x = y == x

abbrev sent_test : ℕ → Bool
sent_test i = ltb i 5 || is_value (known ready.log i) (get_or ready.tuner.registers i 0)

abbrev requests : List (Operation fixed_point)
requests = lna_gain 8 ∷ if_bandwidth 5_000_000 ∷ frequency (100_000_000 * 131072) ∷ go_standby ∷ []

write_registers_example :
    Ends
      (λ _. Written 0xff0 ready)
      (Spared (selected 0xff0) ready)
      (write_registers quiet_bus 0xff0 ready)
write_registers_example = write_registers_lem 0xff0 quiet_bus ready refl

compute_pll_parameters_example :
    Decided fixed_point 32_000_000
      (107_000_000 * 131072)
      (compute_pll_parameters fixed_point 32_000_000 (107_000_000 * 131072))
compute_pll_parameters_example =
    compute_pll_parameters_lem fixed_point fixed_point-Ieee 32_000_000 (107_000_000 * 131072)
      (omega arith) (fixed_point_number (107_000_000 * 131072))

set_gain_example :
    SetsGain true 4 Fields.lna_gain ready (set_lna_gain quiet_bus 8 ready)
    × SetsGain true 8 Fields.mix_gain ready (set_mixer_gain quiet_bus 8 ready)
    × SetsGain true 8 Fields.vga_code ready (set_vga_gain quiet_bus 8 ready)
set_gain_example = set_gain_all_cases quiet_bus 8 ready refl

write_value_example :
    Ends
      (λ _. Holds Fields.hpf 3 ready)
      (λ t. t.tuner ≡ set_value Fields.hpf 3 ready.tuner)
      (write_value quiet_bus Fields.hpf 3 ready)
write_value_example =
    write_value_lem quiet_bus Fields.hpf 3 (omega arith) (omega arith) (unfold fits in refl) ready
      refl refl

divider_fields_example : Programs 3_000_000 (divider_fields 1 2 3_000_000)
divider_fields_example = divider_fields_lem 1 2 3_000_000 (omega arith) (omega arith)

set_value_self_example : get_value (set_value Fields.sel_div 5 ready.tuner) Fields.sel_div ≡ 5
set_value_self_example =
    get_value-set_value_self Fields.sel_div (omega arith) 5 (omega arith) (unfold fits in refl)
      ready.tuner (omega arith)

set_value_ne_example :
    get_value (set_value Fields.sel_div 5 ready.tuner) Fields.capx
    ≡ get_value ready.tuner Fields.capx
set_value_ne_example =
    get_value-set_value_ne Fields.sel_div (omega arith) 5 (omega arith) (unfold fits in refl)
      Fields.capx ready.tuner (omega arith) (omega arith) (inr refl)

compute_mux_parameters_example :
    Selected fixed_point
      (100_000_000 * 131072)
      (compute_mux_parameters fixed_point (100_000_000 * 131072))
compute_mux_parameters_example = compute_mux_parameters_lem fixed_point (100_000_000 * 131072)
