-- ===== src/Drivers/Ahci/Command/Laws.antt =====
-- The controller finds in a command what the driver asked for.
use griffin.Common.{
  ℕ, ◌+◌, ◌-◌, ◌*◌, ◌%◌, ◌^◌, ◌≤◌, ◌<◌, ◌≡◌, refl, ap, ◌∙◌, bit_or, Bool, true, done, leb, arith,
  u32, ◌<<<◌, ◌>>>◌, if◌then◌else◌,
}
use griffin.Bits.Masks.{bit_or_fields}
use griffin.Bits.Digits.{bit_or_comm}
use griffin.Drivers.Ahci.Command.{
  FisRegH2D, Prdt, CommandTable, set_lba, set_count, set_buffer, fill_fis, fill_table, ata_read_dma,
  ata_write_dma,
}

-- The sector, the count and the address as the hardware puts them together.
abbrev pub lba_of : FisRegH2D → ℕ
lba_of fis =
    fis.lba0
    + 2 ^ 8 * fis.lba1
    + 2 ^ 16 * fis.lba2
    + 2 ^ 24 * fis.lba3
    + 2 ^ 32 * fis.lba4
    + 2 ^ 40 * fis.lba5

abbrev pub count_of : FisRegH2D → ℕ
count_of fis = fis.countl + 2 ^ 8 * fis.counth

abbrev pub address_of : Prdt → ℕ
address_of p = p.data_lower + 2 ^ 32 * p.data_upper

-- The byte count is in the low 22 bits, less one.
abbrev pub byte_cnt : Prdt → ℕ
byte_cnt p = p.bc_i % 2 ^ 22 + 1

-- The table asks for the transfer of these sectors to or from the buffer.
pub record IsRequest (buffer_addr lba sectors : ℕ) (write : Bool) (t : CommandTable) : Type 0 where
  pub command : t.cmd_fis.command ≡ (if write then ata_write_dma else ata_read_dma)
  pub first : lba_of t.cmd_fis ≡ lba
  pub count : count_of t.cmd_fis ≡ sectors
  pub address : address_of t.prdt_entry ≡ buffer_addr
  pub bytes : byte_cnt t.prdt_entry ≡ sectors * 512

low_bits : (x : ℕ) → x < 2 ^ 22 → bit_or x (1 <<< 31) % 2 ^ 22 ≡ x
low_bits x h =
    ap (λ (y : ℕ). y % 2 ^ 22) (bit_or_comm x (1 * 2 ^ 31) ∙ bit_or_fields 31 1 x (omega arith))
    ∙ omega arith

-- For 1 to 8192 sectors below sector 2^48, and a buffer below 2^64, the table that `send_command`
-- fills asks for exactly those sectors, the buffer's address and as many bytes.
pub fill_table-IsRequest :
    (buffer_addr lba sectors : ℕ) (write : Bool) (t : CommandTable)
    → buffer_addr < 2 ^ 64
    → lba < 2 ^ 48
    → 0 < sectors
    → sectors ≤ 8192
    → (t' : CommandTable) × (fill_table buffer_addr lba sectors write t ≡ done t')
      × IsRequest buffer_addr lba sectors write t'
unfolding fill_table fill_fis set_buffer set_lba set_count
fill_table-IsRequest buffer_addr lba sectors write t high far pos few =
    let some_bytes : leb 1 (sectors * 512) ≡ true = ground arith in
    (
      record t {
        cmd_fis = fill_fis lba sectors write t.cmd_fis;
        prdt_entry = record {
          data_lower = u32 buffer_addr;
          data_upper = u32 (buffer_addr >>> 32);
          reserved = 0;
          bc_i = bit_or (sectors * 512 - 1) (1 <<< 31);
        };
      },
      rw some_bytes refl,
      record {
        command = refl;
        first = omega arith;
        count = omega arith;
        address = omega arith;
        bytes = omega (arith, low_bits (sectors * 512 - 1) (omega arith));
      },
    )
