-- ===== src/Video/Glyphs.antt =====
-- What `putc` draws: exactly the pixels of the glyph, with its corner at the cursor.
use griffin.Common.{
  ℕ, zero, suc, ◌+◌, ◌-◌, ◌*◌, ◌^◌, ◌≤◌, ◌<◌, ◌≡◌, ◌≢◌, refl, ap, ◌∙◌, Bool, true, false, ◌&&◌,
  ◌||◌, done, arith, ltb, leb, ◌==◌, if◌then◌else◌, ℕ_discrete,
}
use griffin.Video.{Video, draw_line, draw_lines, advance, putc}
use griffin.Video.Pixels.{lit, IsDrawable, pixel, on_line, one, draw_pixel-done, one_lem}

pub chain :
    (a b c : Bool) (k z : ℕ)
    → c ≡ a || b
    → (if b then k else (if a then k else z)) ≡ (if c then k else z)
chain a b c k z e = ground arith

-- A span of `n + 1` positions from `a` on: the first, and those from `b`.
span_suc :
    (p l : Bool) (a b n x : ℕ)
    → b ≡ a + 1
    → (p && (leb a x && (ltb x (a + suc n) && l)))
      ≡ (p && (leb a x && (ltb x (a + 1) && l))) || (p && (leb b x && (ltb x (b + n) && l)))
span_suc p l a b n x e = ground arith

span_zero :
    (p l : Bool) (a x k z : ℕ) → z ≡ (if p && (leb a x && (ltb x (a + 0) && l)) then k else z)
span_zero p l a x k z = ground arith

-- The line `a` as a span of one.
off_line : (l m : Bool) (a y : ℕ) → y ≢ a → ((y == a) && l) ≡ (leb a y && (ltb y (a + 1) && m))
off_line l m a y ne = ground arith

at_line :
    (l : Bool) (a y c w x : ℕ)
    → y ≡ a
    → ((y == a) && (leb (c + 0) x && (ltb x (c + 0 + w) && l)))
      ≡ (leb a y && (ltb y (a + 1) && (leb c x && (ltb x (c + w) && l))))
at_line l a y c w x e = ground arith

-- A pixel in the columns of the glyph that is lit.
abbrev pub across : Video → ℕ → ℕ → ℕ → Bool
across v index x y =
    leb v.cursor_x x
    && (ltb x (v.cursor_x + v.font.width) && lit v.font index (y - v.cursor_y) (x - v.cursor_x))

-- A pixel of the lines of the glyph from `col` to `col + left`.
abbrev pub on_glyph : Video → ℕ → ℕ → ℕ → ℕ → ℕ → Bool
on_glyph v index col left x y =
    leb (v.cursor_y + col) y && (ltb y (v.cursor_y + col + left) && across v index x y)

module _ {stride : ℕ} {v : Video} {index : ℕ} (ok : IsDrawable stride v index) (color : ℕ) where
  draw_line_lem :
      (col : ℕ) (line : col < v.font.height) (row left : ℕ) (fb : ℕ → ℕ)
      → row + left ≤ v.font.width
      → (fb' : ℕ → ℕ) × (draw_line v color index col row left fb ≡ done fb')
        × ((x y : ℕ)
            → x < stride
            → fb' (pixel stride x y)
              ≡ (if on_line ok color col line row left x y then color else fb (pixel stride x y)))
  unfolding draw_line
  draw_line_lem col line row zero fb h = (
    fb,
    refl,
    λ x y hx.
        span_zero (y == v.cursor_y + col) (lit v.font index col (x - v.cursor_x)) (v.cursor_x + row)
          x color (fb (pixel stride x y)),
  )
  draw_line_lem col line row (suc left) fb h =
      let (fb', e, all) =
        draw_line_lem col line (row + 1) left (one ok color col line row fb) (omega arith) in
      (
        fb',
        rw (draw_pixel-done ok color col line row fb (omega arith)) e,
        λ x y hx.
            all x y hx
            ∙ ap (λ (z : ℕ). if on_line ok color col line (row + 1) left x y then color else z)
                (one_lem ok color col line row fb x y (omega arith) hx)
            ∙ chain (on_line ok color col line row 1 x y)
                (on_line ok color col line (row + 1) left x y)
                (on_line ok color col line row (suc left) x y) color (fb (pixel stride x y))
                (span_suc (y == v.cursor_y + col) (lit v.font index col (x - v.cursor_x))
                  (v.cursor_x + row) (v.cursor_x + (row + 1)) left x (omega arith)),
      )

  on_glyph-line :
      (col x y : ℕ) (line : col < v.font.height)
      → on_line ok color col line 0 v.font.width x y ≡ on_glyph v index col 1 x y
  on_glyph-line col x y line = elim (ℕ_discrete y (v.cursor_y + col)) [
    | no other ↦ off_line _ _ (v.cursor_y + col) y other
    | yes same ↦
        let d : y - v.cursor_y ≡ col = omega arith in
        rw d (
          at_line (lit v.font index col (x - v.cursor_x)) (v.cursor_y + col) y v.cursor_x
            v.font.width x same)
  ]

  pub draw_lines_lem :
      (col left : ℕ) (fb : ℕ → ℕ)
      → col + left ≤ v.font.height
      → (fb' : ℕ → ℕ) × (draw_lines v color index col left fb ≡ done fb')
        × ((x y : ℕ)
            → x < stride
            → fb' (pixel stride x y)
              ≡ (if on_glyph v index col left x y then color else fb (pixel stride x y)))
  unfolding draw_lines
  draw_lines_lem col zero fb h = (
    fb,
    refl,
    λ x y hx.
        span_zero true (across v index x y) (v.cursor_y + col) y color (fb (pixel stride x y)),
  )
  draw_lines_lem col (suc left) fb h =
      let (fb1, e1, one_line) = draw_line_lem col (omega arith) 0 v.font.width fb (omega arith) in
      let (fb', e, all) = draw_lines_lem (col + 1) left fb1 (omega arith) in
      (
        fb',
        rw e1 e,
        λ x y hx.
            all x y hx
            ∙ ap (λ (z : ℕ). if on_glyph v index (col + 1) left x y then color else z)
                (one_line x y hx
                  ∙ ap (λ (b : Bool). if b then color else fb (pixel stride x y))
                      (on_glyph-line col x y (omega arith)))
            ∙ chain (on_glyph v index col 1 x y) (on_glyph v index (col + 1) left x y)
                (on_glyph v index col (suc left) x y) color (fb (pixel stride x y))
                (span_suc true (across v index x y) (v.cursor_y + col) (v.cursor_y + (col + 1)) left
                  y (omega arith)),
      )

-- Where the glyph fits into its line and its file, `putc` succeeds, moves the cursor on, and gives the
-- colour to exactly the pixels of the glyph, with its corner at the cursor.
pub putc_lem :
    (stride character color : ℕ) (v v' : Video) (fb : ℕ → ℕ)
    → character ≢ 10
    → IsDrawable stride v (character * v.font.height)
    → advance v ≡ done v'
    → (fb' : ℕ → ℕ) × (putc character color (v, fb) ≡ done (v', fb'))
      × ((x y : ℕ)
          → x < stride
          → fb' (pixel stride x y) ≡ (
              if on_glyph v (character * v.font.height) 0 v.font.height x y
              then color
              else fb (pixel stride x y)))
unfolding putc
putc_lem stride character color v v' fb other ok moved =
    let visible : (character == 10) ≡ false = ground arith in
    let small : ltb (character * v.font.height) (2 ^ 32) ≡ true = ground (arith, ok.index_fits) in
    let (fb', drawn, all) = draw_lines_lem ok color 0 v.font.height fb (omega arith) in
    (fb', rw (visible, small, drawn, moved) refl, all)
