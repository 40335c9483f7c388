-- ===== src/Serial/Sent.antt =====
-- The writer sends its text, byte by byte and in order.
use griffin.Common.{
  ℕ, zero, suc, ◌+◌, ◌<◌, ◌≤◌, ◌≡◌, ◌≢◌, refl, ap, sym, ◌∙◌, bit_and, List, [], ◌∷◌, ◌++◌, map,
  arith, done, u8, ◌==◌, false, ℕ_discrete,
}
use mathlib.Core.List.{append_assoc, append-nil}
use griffin.Serial.{com1, BytePorts, wait_empty, send_char, print_serial}

-- What the writer relies on of the device, whose transmitter is empty after `pending` reads of its
-- status: a byte that is written to the data port of an empty transmitter is sent; reading the status
-- sends nothing, and tells whether the transmitter is empty; and `delay` reads are enough.
pub record IsUart {World : Type 0} (ports : BytePorts World) (sent : World → List ℕ) (delay : ℕ)
    (pending : World → ℕ) : Type 0 where
  pub sends : (b : ℕ) (w : World) → pending w ≡ 0 → sent (ports.outb com1 b w) ≡ sent w ++ (b ∷ [])
  pub reads : (w : World) → sent (ports.inb (com1 + 5) w).1 ≡ sent w
  pub bounded : (w : World) → pending w ≤ delay
  pub ready :
      (w : World)
      → bit_and (ports.inb (com1 + 5) w).0 0x20 ≢ 0
      → pending (ports.inb (com1 + 5) w).1 ≡ 0
  pub empties :
      (w : World)
      → bit_and (ports.inb (com1 + 5) w).0 0x20 ≡ 0
      → pending (ports.inb (com1 + 5) w).1 < pending w

module _ {World : Type 0} {ports : BytePorts World} {sent : World → List ℕ} {delay : ℕ}
    {pending : World → ℕ} (ok : IsUart ports sent delay pending) where
  wait_empty_lem :
      (rounds : ℕ) (w : World)
      → pending w < rounds
      → (w' : World) × (wait_empty ports rounds w ≡ done w') × (sent w' ≡ sent w) × (pending w' ≡ 0)
  unfolding wait_empty
  wait_empty_lem zero w h = absurd (omega arith)
  wait_empty_lem (suc rounds) w h = elim (ℕ_discrete (bit_and (ports.inb (com1 + 5) w).0 0x20) 0) [
    | yes busy ↦
        let (w', e, same, free) =
          wait_empty_lem rounds (ports.inb (com1 + 5) w).1 (omega (arith, ok.empties w busy)) in
        (w', rw (wait_empty, busy) e, same ∙ ok.reads w, free)
    | no ready ↦
        let empty : (bit_and (ports.inb (com1 + 5) w).0 0x20 == 0) ≡ false = ground arith in
        ((ports.inb (com1 + 5) w).1, rw (wait_empty, empty) refl, ok.reads w, ok.ready w ready)
  ]

  -- On a device whose transmitter is empty after at most `delay` reads, with more rounds than that,
  -- `print` ends and has sent the low bytes of the text's characters, in order, behind what was sent.
  pub print_serial-Sends :
      (rounds : ℕ) (msg : List ℕ) (w : World)
      → delay < rounds
      → (w' : World) × (print_serial ports rounds msg w ≡ done w')
        × (sent w' ≡ sent w ++ map u8 msg)
  unfolding print_serial send_char
  print_serial-Sends rounds [] w h = (w, refl, sym (append-nil (sent w)))
  print_serial-Sends rounds (c ∷ msg) w h =
      let (w1, waited, same, free) = wait_empty_lem rounds w (omega (arith, ok.bounded w)) in
      let (w', e, all) = print_serial-Sends rounds msg (ports.outb com1 (u8 c) w1) h in
      (
        w',
        rw waited e,
        all
            ∙ ap (λ (l : List ℕ). l ++ map u8 msg)
                (ok.sends (u8 c) w1 free ∙ ap (λ (l : List ℕ). l ++ (u8 c ∷ [])) same)
            ∙ append_assoc (sent w) (u8 c ∷ []) (map u8 msg),
      )
