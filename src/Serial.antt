-- ===== src/Serial.antt =====
-- serial.rs: the writer on the serial port COM1. The port instructions are a parameter; that the loop
-- of `send_char` does not end is a panic here.
pub mod Sent
use griffin.Common.{
  ℕ, zero, suc, ◌+◌, ◌%◌, ◌^◌, bit_and, List, [], ◌∷◌, Outcome, done, panic, ◌>>=◌, u8, ◌==◌,
  if◌then◌else◌,
}
use griffin.Arch.Apic.{send_all}

abbrev pub com1 : ℕ
com1 = 0x3f8

-- `outb` and `inb` of arch/x86_64/io.rs.
pub record BytePorts (World : Type 0) : Type 0 where
  pub outb : ℕ → ℕ → World → World
  pub inb : ℕ → World → ℕ × World

-- The ports and bytes of `init`, in order.
abbrev pub settings : List (ℕ × ℕ)
settings =
    (com1 + 1, 0x00)
    ∷ (com1 + 3, 0x80)
    ∷ (com1 + 0, 0x03)
    ∷ (com1 + 1, 0x00)
    ∷ (com1 + 3, 0x03)
    ∷ (com1 + 2, 0xc7)
    ∷ (com1 + 4, 0x0b)
    ∷ []

module _ {World : Type 0} (ports : BytePorts World) where
  open ports use {outb, inb}

  unfoldable pub init_serial : World → World
  init_serial w = send_all outb settings w

  abbrev pub is_transmit_empty : World → ℕ × World
  is_transmit_empty w = let (status, w') = inb (com1 + 5) w in (bit_and status 0x20, w')

  -- `while SerialWriter::is_transmit_empty() == 0 {}`, with `rounds` reads at most.
  unfoldable pub wait_empty : ℕ → World → Outcome World
  wait_empty zero w = panic
  wait_empty (suc rounds) w =
      let (empty, w') = is_transmit_empty w in
      let rest = wait_empty rounds w' in if empty == 0 then rest else done w'

  -- A character is its code point.
  unfoldable pub send_char : ℕ → ℕ → World → Outcome World
  send_char rounds c w = wait_empty rounds w >>= λ w'. done (outb com1 (u8 c) w')

  unfoldable pub print_serial : ℕ → List ℕ → World → Outcome World
  print_serial rounds [] w = done w
  print_serial rounds (c ∷ msg) w = send_char rounds c w >>= print_serial rounds msg
