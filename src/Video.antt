-- ===== src/Video.antt =====
-- video/mod.rs: text on the frame buffer. The frame buffer is a function from the index of a pixel, as
-- `*mut u32` counts, to its colour.
pub mod Fonts
pub mod Pixels
pub mod Glyphs
pub mod Lines
use griffin.Common.{
  ℕ, zero, suc, ◌+◌, ◌*◌, ◌/◌, ◌%◌, ◌^◌, Bool, true, false, Option, List, [], ◌∷◌, Outcome, done,
  panic, ◌>>=◌, expect, get_elem?, ◌>>>◌, bit_and, ltb, leb, ◌==◌, if◌then◌else◌, add_checked,
  mul_checked, sub_checked, checked32,
}
use griffin.Video.Fonts.{Font, new_font}

-- The three fields of the crate's tag for the frame buffer that the kernel reads, with its address.
pub record FramebufferTag : Type 0 where
  pub framebuffer_addr : ℕ
  pub framebuffer_height : ℕ
  pub framebuffer_width : ℕ
  pub framebuffer_pitch : ℕ

pub record Video : Type 0 where
  pub cursor_x : ℕ
  pub cursor_y : ℕ
  pub fb_addr : ℕ
  pub height : ℕ
  pub width : ℕ
  pub pitch : ℕ
  pub font : Font

unfoldable pub new_video : List ℕ → FramebufferTag → Outcome Video
new_video font_file tag = do
  font ← new_font font_file
  done (record {
    cursor_x = 10;
    cursor_y = 10;
    fb_addr = tag.framebuffer_addr;
    height = tag.framebuffer_height;
    width = tag.framebuffer_width;
    pitch = tag.framebuffer_pitch;
    font = font;
  })

abbrev pub plot : ℕ → ℕ → (ℕ → ℕ) → ℕ → ℕ
plot offset color fb o = if offset == o then color else fb o

-- `cursor_x + row + (cursor_y + col) * pitch / 4`
abbrev pub pixel_offset : Video → ℕ → ℕ → Outcome ℕ
pixel_offset v col row = do
  x ← add_checked v.cursor_x row
  y ← add_checked v.cursor_y col
  bytes ← mul_checked y v.pitch
  add_checked x (bytes / 4)

-- Whether the glyph at `index` has a pixel at line `col`, `row` pixels from the left.
abbrev pub is_lit : Font → ℕ → ℕ → ℕ → Outcome Bool
is_lit font index col row = do
  at ← checked32 (index + col)
  byte ← expect (get_elem? font.bitmap at)
  shift ← sub_checked 7 row
  done (bit_and (byte >>> shift) 1 == 1)

abbrev pub draw_pixel : Video → ℕ → ℕ → ℕ → ℕ → (ℕ → ℕ) → Outcome (ℕ → ℕ)
draw_pixel v color index col row fb = is_lit v.font index col row >>= λ lit.
    if lit then (do offset ← pixel_offset v col row; done (plot offset color fb)) else done fb

-- The loop over the pixels of a line, from `row` on.
unfoldable pub draw_line : Video → ℕ → ℕ → ℕ → ℕ → ℕ → (ℕ → ℕ) → Outcome (ℕ → ℕ)
draw_line v color index col row zero fb = done fb
draw_line v color index col row (suc left) fb =
    draw_pixel v color index col row fb >>= draw_line v color index col (row + 1) left

-- The loop over the lines of a glyph, from `col` on.
unfoldable pub draw_lines : Video → ℕ → ℕ → ℕ → ℕ → (ℕ → ℕ) → Outcome (ℕ → ℕ)
draw_lines v color index col zero fb = done fb
draw_lines v color index col (suc left) fb =
    draw_line v color index col 0 v.font.width fb >>= draw_lines v color index (col + 1) left

abbrev pub new_line : Video → Outcome Video
new_line v = do
  y ← add_checked v.cursor_y (v.font.height + 2)
  done (record v { cursor_y = y; cursor_x = 10 })

-- The cursor behind a glyph.
unfoldable pub advance : Video → Outcome Video
advance v = do
  let char_width = v.font.width + 2
  next ← add_checked v.cursor_x char_width
  after ← add_checked next char_width
  if leb v.width after then new_line v else done (record v { cursor_x = next })

-- A character is its `u32`.
unfoldable pub putc : ℕ → ℕ → Video × (ℕ → ℕ) → Outcome (Video × (ℕ → ℕ))
putc character color (v, fb) = if character == 10 then (do v' ← new_line v; done (v', fb)) else (do
  index ← checked32 (character * v.font.height)
  fb' ← draw_lines v color index 0 v.font.height fb
  v' ← advance v
  done (v', fb'))

unfoldable pub print : List ℕ → Video × (ℕ → ℕ) → Outcome (Video × (ℕ → ℕ))
print [] s = done s
print (c ∷ msg) s = putc c 0xffffff s >>= print msg
