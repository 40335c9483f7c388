-- ===== src/Drivers/Ahci/Command.antt =====
-- drivers/ahci.rs: the structs of a command, which lie in memory that the controller reads. A cell of
-- them is a field here, and `set` an update.
pub mod Laws
use griffin.Common.{
  ℕ, ◌-◌, ◌*◌, ◌/◌, ◌^◌, bit_or, Bool, true, false, List, Outcome, done, panic, ◌>>=◌, u8, u16, u32,
  ◌<<<◌, ◌>>>◌, leb, ltb, if◌then◌else◌,
}

abbrev pub fis_type_reg_h2d : ℕ
fis_type_reg_h2d = 0x27

abbrev pub ata_read_dma : ℕ
ata_read_dma = 0x25

abbrev pub ata_write_dma : ℕ
ata_write_dma = 0x35

pub record FisRegH2D : Type 0 where
  pub fis_type : ℕ
  pub mul_cmd : ℕ
  pub command : ℕ
  pub featurel : ℕ
  pub lba0 : ℕ
  pub lba1 : ℕ
  pub lba2 : ℕ
  pub device : ℕ
  pub lba3 : ℕ
  pub lba4 : ℕ
  pub lba5 : ℕ
  pub featureh : ℕ
  pub countl : ℕ
  pub counth : ℕ
  pub icc : ℕ
  pub control : ℕ
  pub reserved : ℕ

-- `size_of::<FisRegH2D>()`
abbrev pub fis_size : ℕ
fis_size = 20

unfoldable pub set_lba : ℕ → FisRegH2D → FisRegH2D
set_lba lba fis = record fis {
  lba0 = u8 lba;
  lba1 = u8 (lba >>> 8);
  lba2 = u8 (lba >>> 16);
  lba3 = u8 (lba >>> 24);
  lba4 = u8 (lba >>> 32);
  lba5 = u8 (lba >>> 40);
  device = 1 <<< 6;
}

unfoldable pub set_count : ℕ → FisRegH2D → FisRegH2D
set_count count fis = record fis { countl = u8 count; counth = u8 (count >>> 8) }

pub record CommandHeader : Type 0 where
  pub cfl_awp : ℕ
  pub rbc_rsv_pmp : ℕ
  pub prdtl : ℕ
  pub prdbc : ℕ
  pub ctaddr_lower : ℕ
  pub ctaddr_upper : ℕ
  pub reserved : List ℕ

pub record Prdt : Type 0 where
  pub data_lower : ℕ
  pub data_upper : ℕ
  pub reserved : ℕ
  pub bc_i : ℕ

-- `sector_cnt as u32 * 512 - 1 | 1 << 31`: the subtraction comes first, and panics at 0.
unfoldable pub set_buffer : ℕ → ℕ → Prdt → Outcome Prdt
set_buffer address sector_cnt p =
    if leb 1 (sector_cnt * 512)
    then done (record {
      data_lower = u32 address;
      data_upper = u32 (address >>> 32);
      reserved = 0;
      bc_i = bit_or (sector_cnt * 512 - 1) (1 <<< 31);
    })
    else panic

-- The frame is what `cmd_fis` starts with; there is one entry of physical regions.
pub record CommandTable : Type 0 where
  pub cmd_fis : FisRegH2D
  pub atapi_cmd : List ℕ
  pub reserved : List ℕ
  pub prdt_entry : Prdt

-- What `send_command` stores in the header of its slot.
unfoldable pub fill_header : Bool → CommandHeader → CommandHeader
fill_header write h = record h {
  cfl_awp = if write then bit_or (u8 (fis_size / 4)) (1 <<< 6) else u8 (fis_size / 4);
  prdtl = 1;
}

-- What `send_command` stores in the frame.
unfoldable pub fill_fis : ℕ → ℕ → Bool → FisRegH2D → FisRegH2D
fill_fis lba sectors write fis = set_count (u16 sectors) (
    set_lba lba (record fis {
      fis_type = fis_type_reg_h2d;
      mul_cmd = 1 <<< 7;
      command = if write then ata_write_dma else ata_read_dma;
    }))

-- What `send_command` stores in the table, for a buffer at a physical address.
unfoldable pub fill_table : ℕ → ℕ → ℕ → Bool → CommandTable → Outcome CommandTable
fill_table buffer_addr lba sectors write t = do
  entry ← set_buffer buffer_addr sectors t.prdt_entry
  done (record t { cmd_fis = fill_fis lba sectors write t.cmd_fis; prdt_entry = entry })
