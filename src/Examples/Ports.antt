-- ===== src/Examples/Ports.antt =====
-- Ports of a SATA controller whose registers count down.
use griffin.Common.{
  ℕ, ◌-◌, ◌≡◌, refl, Bool, true, false, [], some, Outcome, done, panic, if◌then◌else◌, ◌==◌,
}
use griffin.Drivers.Ahci.Command.{
  FisRegH2D, CommandHeader, CommandTable, fill_table, set_buffer, fill_header,
}
use griffin.Drivers.Ahci.Port.{
  PortRegisters, find_slot, get_slot, wait, send_command, get_command_header,
}

abbrev blank_fis : FisRegH2D
blank_fis = record {
  fis_type = 0;
  mul_cmd = 0;
  command = 0;
  featurel = 0;
  lba0 = 0;
  lba1 = 0;
  lba2 = 0;
  device = 0;
  lba3 = 0;
  lba4 = 0;
  lba5 = 0;
  featureh = 0;
  countl = 0;
  counth = 0;
  icc = 0;
  control = 0;
  reserved = 0;
}

abbrev pub blank_table : CommandTable
blank_table = record {
  cmd_fis = blank_fis;
  atapi_cmd = [];
  reserved = [];
  prdt_entry = record { data_lower = 0; data_upper = 0; reserved = 0; bc_i = 0 };
}

abbrev blank_header : CommandHeader
blank_header = record {
  cfl_awp = 0;
  rbc_rsv_pmp = 0;
  prdtl = 0;
  prdbc = 1024;
  ctaddr_lower = 0x5000;
  ctaddr_upper = 0;
  reserved = [];
}

-- Slots 0 and 1 are in use; slot 2 shows as issued for as many reads as the state says.
abbrev port : PortRegisters ℕ
port = record {
  clb_lower = λ w. (0x4000, w);
  clb_higher = λ w. (0, w);
  interrupt_status = λ w. (0, w);
  sact = λ w. (3, w);
  ci = λ w. (if w == 0 then 0 else 4, w - 1);
  set_ci = λ v w. 2;
  header = λ a w. blank_header;
  set_header = λ a h w. w;
  table = λ a w. blank_table;
  set_table = λ a t w. w;
}

abbrev value_of : Outcome (Bool × ℕ) → Bool × ℕ
value_of panic = (false, 99)
value_of (done r) = r

-- The wait ends after two rounds in which the slot is still busy.
waited : wait port 2 10 2 ≡ done (true, 0)
unfolding wait
waited = refl

-- A command gets slot 2 and moves 1024 bytes.
command : send_command port 123456 2 0x7000 false 10 0 ≡ done (some 1024, 0)
unfolding send_command get_slot find_slot get_command_header wait fill_table set_buffer fill_header
command = refl
