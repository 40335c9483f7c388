-- ===== src/Examples/Screens.antt =====
-- A screen of 40 by 60 pixels with a font of two glyphs, and a serial device that is busy once after
-- each byte.
use griffin.Common.{
  ℕ, ◌<◌, ◌≡◌, refl, inl, inr, Bool, true, false, List, [], ◌∷◌, ◌++◌, arith, done, ◌==◌,
  if◌then◌else◌,
}
use griffin.Serial.{com1, BytePorts, print_serial}
use griffin.Serial.Sent.{IsUart, print_serial-Sends}
use griffin.Video.Fonts.{Font}
use griffin.Video.{Video, advance, putc, print}
use griffin.Video.Pixels.{IsDrawable, pixel}
use griffin.Video.Glyphs.{on_glyph, putc_lem}
use griffin.Video.Lines.{IsScreen, IsShown, print-IsShown}

abbrev two_glyphs : Font
two_glyphs = record { bitmap = 0 ∷ 0 ∷ 0x80 ∷ 0x41 ∷ []; height = 2; width = 8 }

abbrev screen : Video
screen = record {
  cursor_x = 10;
  cursor_y = 10;
  fb_addr = 0;
  height = 60;
  width = 40;
  pitch = 192;
  font = two_glyphs;
}

screen-IsDrawable : IsDrawable 48 screen 2
screen-IsDrawable = record {
  pitch = refl;
  byte_wide = omega arith;
  in_font = omega arith;
  index_fits = omega arith;
  in_line = omega arith;
  fits = omega arith;
}

abbrev behind : Video
behind = record screen { cursor_x = 20 }

putc_lem_example :
    (fb' : ℕ → ℕ) × (putc 1 0xffffff (screen, λ o. 0) ≡ done (behind, fb'))
    × ((x y : ℕ)
        → x < 48
        → fb' (pixel 48 x y) ≡ (if on_glyph screen 2 0 2 x y then 0xffffff else 0))
unfolding advance
putc_lem_example =
    putc_lem 48 1 0xffffff screen behind (λ o. 0) (omega arith) screen-IsDrawable refl

screen-IsScreen : IsScreen 48 5 screen
screen-IsScreen = record {
  pitch = refl;
  wide = omega arith;
  byte_wide = omega arith;
  fits = omega arith;
  wraps = omega arith;
  in_line = omega arith;
  room = omega arith;
}

print-IsShown_example :
    IsShown 48 2 screen (1 ∷ 10 ∷ 0 ∷ []) (λ o. 0) (print (1 ∷ 10 ∷ 0 ∷ []) (screen, λ o. 0))
print-IsShown_example =
    print-IsShown 48 2 screen (λ o. 0) (1 ∷ 10 ∷ 0 ∷ []) screen-IsScreen
      (inr (omega arith, omega arith), (inl refl, (inr (omega arith, omega arith), tt)))

-- Whether the transmitter is busy, and what was sent.
abbrev Line : Type 0
Line = Bool × List ℕ

abbrev line : BytePorts Line
line = record {
  outb = λ port byte w. if port == com1 then (true, w.1 ++ (byte ∷ [])) else w;
  inb = λ port w. (if w.0 then 0 else 0x20, (false, w.1));
}

line-IsUart : IsUart line (λ w. w.1) 1 (λ w. if w.0 then 1 else 0)
line-IsUart = record {
  sends = λ b w h. refl;
  reads = λ w. refl;
  bounded = λ w. ground arith;
  ready = λ w h. refl;
  empties = λ w h. ground arith;
}

print_serial-Sends_example :
    (w' : Line) × (print_serial line 2 (0x68 ∷ 0x69 ∷ []) (true, []) ≡ done w')
    × (w'.1 ≡ 0x68 ∷ 0x69 ∷ [])
print_serial-Sends_example =
    print_serial-Sends line-IsUart 2 (0x68 ∷ 0x69 ∷ []) (true, []) (omega arith)
