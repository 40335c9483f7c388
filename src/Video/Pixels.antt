-- ===== src/Video/Pixels.antt =====
-- The pixels of a glyph, and what one line of it draws.
use griffin.Common.{
  ℕ, ◌+◌, ◌-◌, ◌*◌, ◌/◌, ◌%◌, ◌^◌, ◌≤◌, ◌<◌, ◌≡◌, refl, ap, ap₂, eq_of_iff, sym, ◌∙◌, Bool, true,
  ◌&&◌, done, get_or, length, arith, ltb, leb, ◌==◌, if◌then◌else◌, bit_and, ◌>>>◌,
  get_elem?-eq-get_or, Bool-cases, inl, inr,
}
use native.Mathlib.Nat.{
  mod-eq_of_lt, div-eq_of_lt, add-mul-mod_self_right, add-mul-div_right, mul-le-mul_left,
  mul-le-mul_right, mul_left_comm,
}
use griffin.Video.Fonts.{Font}
use griffin.Video.{Video, plot, is_lit, pixel_offset, draw_pixel}

-- The glyph's pixel, as the file encodes it: the bits of a byte, the highest leftmost.
abbrev pub lit : Font → ℕ → ℕ → ℕ → Bool
lit font index col row = bit_and (get_or font.bitmap (index + col) 0 >>> (7 - row)) 1 == 1

-- The screen has lines of `stride` pixels, the glyph at `index` is in the font, and it fits into a line
-- at the cursor.
pub record IsDrawable (stride : ℕ) (v : Video) (index : ℕ) : Type 0 where
  pub pitch : v.pitch ≡ 4 * stride
  pub byte_wide : v.font.width ≤ 8
  pub in_font : index + v.font.height ≤ length v.font.bitmap
  pub index_fits : index + v.font.height < 2 ^ 32
  pub in_line : v.cursor_x + v.font.width ≤ stride
  pub fits : (v.cursor_y + v.font.height) * v.pitch + stride < 2 ^ 64

-- The index of the pixel `x` of line `y`.
abbrev pub pixel : ℕ → ℕ → ℕ → ℕ
pixel stride x y = x + y * stride

-- In lines of `stride` pixels, pixels differ in their index.
pub pixel_injective :
    (stride x y x' y' : ℕ)
    → x < stride
    → x' < stride
    → pixel stride x y ≡ pixel stride x' y'
    → (x ≡ x') × (y ≡ y')
pixel_injective stride x y x' y' h h' e =
    let column =
      λ (a b : ℕ) (lt : a < stride). add-mul-mod_self_right a b stride ∙ mod-eq_of_lt lt in
    let row = λ (a b : ℕ) (lt : a < stride).
      add-mul-div_right a b (omega arith) ∙ ap (λ (q : ℕ). q + b) (div-eq_of_lt lt) in
    (
      sym (column x y h) ∙ ap (λ (p : ℕ). p % stride) e ∙ column x' y' h',
      omega (arith, sym (row x y h) ∙ ap (λ (p : ℕ). p / stride) e ∙ row x' y' h'),
    )

plotted :
    (l : Bool) (o p color : ℕ) (fb : ℕ → ℕ)
    → (if l then plot o color fb else fb) p ≡ (if l && (o == p) then color else fb p)
plotted l o p color fb = ground arith

module _ {stride : ℕ} {v : Video} {index : ℕ} (ok : IsDrawable stride v index) (color : ℕ) (col : ℕ)
    (line : col < v.font.height) where
  pub is_lit-done :
      (row : ℕ) → row < v.font.width → is_lit v.font index col row ≡ done (lit v.font index col row)
  is_lit-done row h =
      let a : ltb (index + col) (2 ^ 32) ≡ true = ground (arith, ok.index_fits) in
      let s : leb row 7 ≡ true = ground (arith, ok.byte_wide) in
      rw (a, get_elem?-eq-get_or v.font.bitmap (index + col) 0 (omega (arith, ok.in_font)), s) refl

  pub pixel_offset-done :
      (row : ℕ)
      → row < v.font.width
      → pixel_offset v col row ≡ done (pixel stride (v.cursor_x + row) (v.cursor_y + col))
  pixel_offset-done row h =
      let y = v.cursor_y + col in
      let bytes : y * v.pitch ≡ 4 * (y * stride) =
        ap (λ (p : ℕ). y * p) ok.pitch ∙ mul_left_comm y 4 stride in
      let below : y * v.pitch ≤ (v.cursor_y + v.font.height) * v.pitch =
        mul-le-mul_right v.pitch (omega (arith, line)) in
      let wide : y * 4 ≤ y * v.pitch = mul-le-mul_left y (omega (arith, ok.pitch, ok.in_line)) in
      let total = ok.fits in
      let c1 : ltb (v.cursor_x + row) (2 ^ 64) ≡ true = ground (arith, ok.in_line) in
      let c2 : ltb y (2 ^ 64) ≡ true = ground (arith, wide) in
      let c3 : ltb (y * v.pitch) (2 ^ 64) ≡ true = ground arith in
      let c4 : ltb (v.cursor_x + row + y * v.pitch / 4) (2 ^ 64) ≡ true =
        ground (arith, ok.in_line) in
      let q : y * v.pitch / 4 ≡ y * stride = omega (arith, bytes) in rw (c1, c2, c3, c4, q) refl

  -- A pixel of this line of the glyph, between `row` and `row + left`.
  abbrev pub on_line : ℕ → ℕ → ℕ → ℕ → Bool
  on_line row left x y =
      (y == v.cursor_y + col)
      && (leb (v.cursor_x + row) x
          && (ltb x (v.cursor_x + row + left) && lit v.font index col (x - v.cursor_x)))

  abbrev pub one : ℕ → (ℕ → ℕ) → ℕ → ℕ
  one row fb =
      if lit v.font index col row
      then plot (pixel stride (v.cursor_x + row) (v.cursor_y + col)) color fb
      else fb

  pub draw_pixel-done :
      (row : ℕ) (fb : ℕ → ℕ)
      → row < v.font.width
      → draw_pixel v color index col row fb ≡ done (one row fb)
  draw_pixel-done row fb h = rw (is_lit-done row h) (elim (Bool-cases (lit v.font index col row)) [
    | inl e ↦ rw (e, pixel_offset-done row h) refl
    | inr e ↦ rw e refl
  ])

  pub one_lem :
      (row : ℕ) (fb : ℕ → ℕ) (x y : ℕ)
      → row < v.font.width
      → x < stride
      → one row fb (pixel stride x y) ≡ (if on_line row 1 x y then color else fb (pixel stride x y))
  one_lem row fb x y h hx =
      plotted (lit v.font index col row) (pixel stride (v.cursor_x + row) (v.cursor_y + col))
        (pixel stride x y) color fb
      ∙ ap (λ (b : Bool). if b then color else fb (pixel stride x y))
          (eq_of_iff _ _ forward backward)
    where
      glyph : ℕ → Bool
      glyph r = lit v.font index col r

      at : ℕ
      at = pixel stride (v.cursor_x + row) (v.cursor_y + col)

      forward :
          (lit v.font index col row && (at == pixel stride x y)) ≡ true → on_line row 1 x y ≡ true
      forward q =
          let (ex, ey) =
            pixel_injective stride (v.cursor_x + row) (v.cursor_y + col) x y
              (omega (arith, ok.in_line)) hx (ground arith) in
          let d : x - v.cursor_x ≡ row = omega arith in rw d (ground arith)

      backward :
          on_line row 1 x y ≡ true → (lit v.font index col row && (at == pixel stride x y)) ≡ true
      backward q =
          let ey : v.cursor_y + col ≡ y = ground arith in
          let ex : v.cursor_x + row ≡ x = ground arith in
          let d : x - v.cursor_x ≡ row = omega arith in
          let shown : lit v.font index col (x - v.cursor_x) ≡ true = ground arith in
          let here : at ≡ pixel stride x y = ap₂ (pixel stride) ex ey in
          ground (arith, rw d at shown, here)
