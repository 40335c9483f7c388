-- ===== src/Arch/Apic.antt =====
-- arch/x86_64/apic.rs: the local interrupt controller, through its registers, and the old one, through
-- its ports.
use griffin.Common.{
  ℕ, ◌-◌, ◌^◌, bit_and, bit_or, List, [], ◌∷◌, Outcome, done, ◌>>=◌, u32, ◌<<<◌, add_checked,
  sub_checked,
}
use griffin.Arch.PhysAddr.{phys_base}
use griffin.Arch.Cpu.{Msrs, rdmsr, apic_base}

pub data LapicRegisters : Type 0 where
  eoi : LapicRegisters
  sivr : LapicRegisters
  dcr : LapicRegisters
  lvt_timer : LapicRegisters
  initial_count : LapicRegisters
  curr_count : LapicRegisters

-- `reg as u64`
abbrev pub register_offset : LapicRegisters → ℕ
register_offset eoi = 0xb0
register_offset sivr = 0xf0
register_offset dcr = 0x3e0
register_offset lvt_timer = 0x320
register_offset initial_count = 0x380
register_offset curr_count = 0x390

-- What reads and writes of a 32-bit word do.
pub record Words (World : Type 0) : Type 0 where
  pub get : ℕ → World → ℕ × World
  pub put : ℕ → ℕ → World → World

-- `Xapic::new`: the controller is its address.
unfoldable pub new_xapic : {World : Type 0} → Msrs World → World → Outcome ℕ
new_xapic msrs w = add_checked (bit_and (rdmsr msrs apic_base w) 0xfffff000) phys_base

module _ {World : Type 0} (words : Words World) (address : ℕ) where
  unfoldable pub xapic_read : LapicRegisters → World → Outcome (ℕ × World)
  xapic_read reg w = add_checked address (register_offset reg) >>= λ ptr. done (words.get ptr w)

  unfoldable pub xapic_write : LapicRegisters → ℕ → World → Outcome World
  xapic_write reg value w =
      add_checked address (register_offset reg) >>= λ ptr. done (words.put ptr value w)

  unfoldable pub enable : World → Outcome World
  enable w = do (old, w') ← xapic_read sivr w; xapic_write sivr (bit_or old 0x1ff) w'

  -- `sleep` is that of the timer.
  unfoldable pub calibrate_timer : (ℕ → World → Outcome World) → ℕ → ℕ → World → Outcome World
  calibrate_timer sleep ms vector w = do
    w1 ← xapic_write dcr 0 w
    w2 ← xapic_write initial_count (2 ^ 32 - 1) w1
    w3 ← sleep ms w2
    (left, w4) ← xapic_read curr_count w3
    count ← sub_checked (2 ^ 32 - 1) left
    w5 ← xapic_write lvt_timer (bit_or (u32 vector) (1 <<< 17)) w4
    xapic_write initial_count count w5

  unfoldable pub end_of_interrupt : World → Outcome World
  end_of_interrupt w = xapic_write eoi 0 w

-- The ports and bytes of `remap_pic`, in order.
abbrev pub pic_commands : List (ℕ × ℕ)
pic_commands =
    (0x20, 0x11)
    ∷ (0xa0, 0x11)
    ∷ (0x21, 0x20)
    ∷ (0xa1, 0x28)
    ∷ (0x21, 4)
    ∷ (0xa1, 2)
    ∷ (0x21, 0x01)
    ∷ (0xa1, 0x01)
    ∷ (0x21, 0xff)
    ∷ (0xa1, 0xff)
    ∷ []

unfoldable pub send_all : {World : Type 0} → (ℕ → ℕ → World → World) → List (ℕ × ℕ) → World → World
send_all outb [] w = w
send_all outb ((port, byte) ∷ rest) w = send_all outb rest (outb port byte w)

unfoldable pub remap_pic : {World : Type 0} → (ℕ → ℕ → World → World) → World → World
remap_pic outb w = send_all outb pic_commands w
