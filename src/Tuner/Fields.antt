-- ===== src/Tuner/Fields.antt =====
-- The register matrix of src/tuner.c: a field is `{ register, mask, lowest bit }`.
use rf.Prelude.{ℕ}

pub record Field : Type 0 where
  pub reg : ℕ
  pub mask : ℕ
  pub shift : ℕ

abbrev pub vco_indicator : Field
vco_indicator = record { reg = 0x02; mask = 0x7f; shift = 0 }

abbrev pub rf_indicator : Field
rf_indicator = record { reg = 0x03; mask = 0xff; shift = 0 }

abbrev pub fil_cal_code : Field
fil_cal_code = record { reg = 0x04; mask = 0x0f; shift = 0 }

abbrev pub pwd_lt : Field
pwd_lt = record { reg = 0x05; mask = 0x80; shift = 7 }

abbrev pub pwd_lna1 : Field
pwd_lna1 = record { reg = 0x05; mask = 0x20; shift = 5 }

abbrev pub lna_gain_mode : Field
lna_gain_mode = record { reg = 0x05; mask = 0x10; shift = 4 }

abbrev pub lna_gain : Field
lna_gain = record { reg = 0x05; mask = 0x0f; shift = 0 }

abbrev pub pwd_pdet1 : Field
pwd_pdet1 = record { reg = 0x06; mask = 0x80; shift = 7 }

abbrev pub pwd_pdet3 : Field
pwd_pdet3 = record { reg = 0x06; mask = 0x40; shift = 6 }

abbrev pub filt_3db : Field
filt_3db = record { reg = 0x06; mask = 0x20; shift = 5 }

abbrev pub pw_lna : Field
pw_lna = record { reg = 0x06; mask = 0x07; shift = 0 }

abbrev pub pwd_mix : Field
pwd_mix = record { reg = 0x07; mask = 0x40; shift = 6 }

abbrev pub pw0_mix : Field
pw0_mix = record { reg = 0x07; mask = 0x20; shift = 5 }

abbrev pub mixgain_mode : Field
mixgain_mode = record { reg = 0x07; mask = 0x10; shift = 4 }

abbrev pub mix_gain : Field
mix_gain = record { reg = 0x07; mask = 0x0f; shift = 0 }

abbrev pub pwd_amp : Field
pwd_amp = record { reg = 0x08; mask = 0x80; shift = 7 }

abbrev pub pw0_amp : Field
pw0_amp = record { reg = 0x08; mask = 0x40; shift = 6 }

abbrev pub imr_g : Field
imr_g = record { reg = 0x08; mask = 0x3f; shift = 0 }

abbrev pub pwd_iffilt : Field
pwd_iffilt = record { reg = 0x09; mask = 0x80; shift = 7 }

abbrev pub pw1_iffilt : Field
pw1_iffilt = record { reg = 0x09; mask = 0x40; shift = 6 }

abbrev pub imr_p : Field
imr_p = record { reg = 0x09; mask = 0x3f; shift = 0 }

abbrev pub pwd_filt : Field
pwd_filt = record { reg = 0x0a; mask = 0x80; shift = 7 }

abbrev pub pw_filt : Field
pw_filt = record { reg = 0x0a; mask = 0x60; shift = 5 }

abbrev pub filt_code : Field
filt_code = record { reg = 0x0a; mask = 0x0f; shift = 0 }

abbrev pub filt_bw : Field
filt_bw = record { reg = 0x0b; mask = 0xe0; shift = 5 }

abbrev pub filt_cap : Field
filt_cap = record { reg = 0x0b; mask = 0x60; shift = 5 }

abbrev pub cal_trigger : Field
cal_trigger = record { reg = 0x0b; mask = 0x10; shift = 4 }

abbrev pub hpf : Field
hpf = record { reg = 0x0b; mask = 0x0f; shift = 0 }

abbrev pub pwd_vga : Field
pwd_vga = record { reg = 0x0c; mask = 0x40; shift = 6 }

abbrev pub vga_mode : Field
vga_mode = record { reg = 0x0c; mask = 0x10; shift = 4 }

abbrev pub vga_code : Field
vga_code = record { reg = 0x0c; mask = 0x0f; shift = 0 }

abbrev pub lna_vthh : Field
lna_vthh = record { reg = 0x0d; mask = 0xf0; shift = 4 }

abbrev pub lna_vthl : Field
lna_vthl = record { reg = 0x0d; mask = 0x0f; shift = 0 }

abbrev pub mix_vth_h : Field
mix_vth_h = record { reg = 0x0e; mask = 0xf0; shift = 4 }

abbrev pub mix_vth_l : Field
mix_vth_l = record { reg = 0x0e; mask = 0x0f; shift = 0 }

abbrev pub clk_out_enb : Field
clk_out_enb = record { reg = 0x0f; mask = 0x10; shift = 4 }

abbrev pub cali_clk : Field
cali_clk = record { reg = 0x0f; mask = 0x04; shift = 2 }

abbrev pub clk_agc_enb : Field
clk_agc_enb = record { reg = 0x0f; mask = 0x02; shift = 1 }

abbrev pub sel_div : Field
sel_div = record { reg = 0x10; mask = 0xe0; shift = 5 }

abbrev pub refdiv : Field
refdiv = record { reg = 0x10; mask = 0x10; shift = 4 }

abbrev pub xtal_drive : Field
xtal_drive = record { reg = 0x10; mask = 0x08; shift = 3 }

abbrev pub capx : Field
capx = record { reg = 0x10; mask = 0x03; shift = 0 }

abbrev pub pw_ldo_a : Field
pw_ldo_a = record { reg = 0x11; mask = 0xc0; shift = 6 }

abbrev pub vco_current : Field
vco_current = record { reg = 0x12; mask = 0xe0; shift = 5 }

abbrev pub pw_sdm : Field
pw_sdm = record { reg = 0x12; mask = 0x08; shift = 3 }

abbrev pub si2c : Field
si2c = record { reg = 0x14; mask = 0xc0; shift = 6 }

abbrev pub ni2c : Field
ni2c = record { reg = 0x14; mask = 0x3f; shift = 0 }

abbrev pub sdm_inl : Field
sdm_inl = record { reg = 0x15; mask = 0xff; shift = 0 }

abbrev pub sdm_inh : Field
sdm_inh = record { reg = 0x16; mask = 0xff; shift = 0 }

abbrev pub pw_ldo_d : Field
pw_ldo_d = record { reg = 0x17; mask = 0xc0; shift = 6 }

abbrev pub open_d : Field
open_d = record { reg = 0x17; mask = 0x08; shift = 3 }

abbrev pub pwd_rffilt : Field
pwd_rffilt = record { reg = 0x19; mask = 0x80; shift = 7 }

abbrev pub sw_agc : Field
sw_agc = record { reg = 0x19; mask = 0x10; shift = 4 }

abbrev pub rfmux : Field
rfmux = record { reg = 0x1a; mask = 0xc0; shift = 6 }

abbrev pub pll_auto_clk : Field
pll_auto_clk = record { reg = 0x1a; mask = 0x0c; shift = 2 }

abbrev pub rffilt : Field
rffilt = record { reg = 0x1a; mask = 0x03; shift = 0 }

abbrev pub tf_nch : Field
tf_nch = record { reg = 0x1b; mask = 0xf0; shift = 4 }

abbrev pub tf_lp : Field
tf_lp = record { reg = 0x1b; mask = 0x0f; shift = 0 }

abbrev pub pdet3_gain : Field
pdet3_gain = record { reg = 0x1c; mask = 0xf0; shift = 4 }

abbrev pub pdet1_gain : Field
pdet1_gain = record { reg = 0x1d; mask = 0x38; shift = 3 }

abbrev pub pdet2_gain : Field
pdet2_gain = record { reg = 0x1d; mask = 0x07; shift = 0 }

abbrev pub pdet_clk : Field
pdet_clk = record { reg = 0x1e; mask = 0x3f; shift = 0 }

abbrev pub filt_ext : Field
filt_ext = record { reg = 0x1e; mask = 0x40; shift = 6 }
