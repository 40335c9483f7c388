-- ===== src/Video/Lines.antt =====
-- Text stays on the screen while there are lines left for it.
use griffin.Common.{
  ℕ, suc, ◌+◌, ◌*◌, ◌^◌, ◌≤◌, ◌<◌, ◌≡◌, ◌≢◌, refl, ap, ◌∙◌, ◌⊎◌, inl, inr, Bool, true, false, not,
  ◌&&◌, ◌||◌, Bool-cases, List, [], ◌∷◌, length, Outcome, done, ◌>>=◌, arith, ltb, leb, ◌==◌,
  if◌then◌else◌, ℕ_discrete,
}
use native.Mathlib.Nat.{add-mul, mul-le-mul_left, mul-le-mul_right}
use griffin.Video.Fonts.{Font}
use griffin.Video.{Video, new_line, advance, putc, print}
use griffin.Video.Pixels.{IsDrawable, pixel}
use griffin.Video.Glyphs.{on_glyph, chain, putc_lem}

-- The screen has lines of `stride` pixels in memory, wide enough for two glyphs, the cursor stands
-- where a glyph fits into the line, and below its line there is room for `n` more.
pub record IsScreen (stride n : ℕ) (v : Video) : Type 0 where
  pub pitch : v.pitch ≡ 4 * stride
  pub wide : v.width ≤ stride
  pub byte_wide : v.font.width ≤ 8
  pub fits : v.height * v.pitch + stride < 2 ^ 64
  pub wraps : 10 + (v.font.width + 2) < v.width
  pub in_line : v.cursor_x + (v.font.width + 2) < v.width
  pub room : v.cursor_y + v.font.height + n * (v.font.height + 2) ≤ v.height

-- The glyph of a character is in the font.
abbrev pub InFont : Font → ℕ → Type 0
InFont font c =
    (c * font.height + font.height ≤ length font.bitmap) × (c * font.height + font.height < 2 ^ 32)

-- All characters of a text are in the font, or start a line.
abbrev pub AllInFont : Font → List ℕ → Type 0
AllInFont font [] = Unit
AllInFont font (c ∷ msg) = ((c ≡ 10) ⊎ InFont font c) × AllInFont font msg

-- The screen with its cursor at the start of the next line, behind a glyph, and after a character.
abbrev pub next_line : Video → Video
next_line v = record v { cursor_y = v.cursor_y + (v.font.height + 2); cursor_x = 10 }

abbrev pub behind : Video → Video
behind v =
    if leb v.width (v.cursor_x + (v.font.width + 2) + (v.font.width + 2))
    then next_line v
    else record v { cursor_x = v.cursor_x + (v.font.width + 2) }

abbrev pub after : ℕ → Video → Video
after c v = if c == 10 then next_line v else behind v

abbrev pub after_text : Video → List ℕ → Video
after_text v [] = v
after_text v (c ∷ msg) = after_text (after c v) msg

-- The pixels of the glyphs of a text, each at the place where the cursor is by then.
abbrev pub text_lit : Video → List ℕ → ℕ → ℕ → Bool
text_lit v [] x y = false
text_lit v (c ∷ msg) x y =
    (not (c == 10) && on_glyph v (c * v.font.height) 0 v.font.height x y)
    || text_lit (after c v) msg x y

-- What lies right of the screen or below it is as it was.
abbrev pub Kept : ℕ → Video → (ℕ → ℕ) → (ℕ → ℕ) → Type 0
Kept stride v fb fb' =
    (x y : ℕ)
    → x < stride
    → (v.width ≤ x) ⊎ (v.height ≤ y)
    → fb' (pixel stride x y) ≡ fb (pixel stride x y)

-- The outcome of a text for which there is room: exactly the pixels of its glyphs are white, the rest
-- of each line is as it was, the cursor stands behind the text, on a screen that has lines left, and
-- nothing outside of the screen changes.
pub record IsShown (stride n : ℕ) (v : Video) (msg : List ℕ) (fb : ℕ → ℕ)
    (r : Outcome (Video × (ℕ → ℕ))) : Type 0 where
  pub fb' : ℕ → ℕ
  pub result : r ≡ done (after_text v msg, fb')
  pub drawn :
      (x y : ℕ)
      → x < stride
      → fb' (pixel stride x y) ≡ (if text_lit v msg x y then 0xffffff else fb (pixel stride x y))
  pub screen : IsScreen stride n (after_text v msg)
  pub font : (after_text v msg).font ≡ v.font
  pub width : (after_text v msg).width ≡ v.width
  pub height : (after_text v msg).height ≡ v.height
  pub kept : Kept stride v fb fb'

text_lit-first :
    (v : Video) (c : ℕ) (msg : List ℕ) (x y : ℕ)
    → text_lit v (c ∷ msg) x y ≡ (text_lit v (c ∷ []) x y || text_lit (after c v) msg x y)
text_lit-first v c msg x y =
    or-false (not (c == 10) && on_glyph v (c * v.font.height) 0 v.font.height x y)
      (text_lit (after c v) msg x y)
  where
    or-false : (a b : Bool) → (a || b) ≡ ((a || false) || b)
    or-false true b = refl
    or-false false b = refl

or_false : (b : Bool) (z : ℕ) → (if b then 0xffffff else z) ≡ (if b || false then 0xffffff else z)
or_false true z = refl
or_false false z = refl

module _ {stride n : ℕ} {v : Video} (ok : IsScreen stride (suc n) v) where
  below : v.cursor_y + v.font.height + (v.font.height + 2) + n * (v.font.height + 2) ≤ v.height
  below = omega (arith, ok.room, add-mul 1 n (v.font.height + 2))

  height-small : v.height < 2 ^ 62
  height-small =
      let bytes : v.height * 4 ≤ v.height * v.pitch =
        mul-le-mul_left v.height (omega (arith, ok.pitch, ok.wide, ok.wraps)) in
      omega (arith, ok.fits)

  new_line-done : new_line v ≡ done (next_line v)
  new_line-done =
      let small : ltb (v.cursor_y + (v.font.height + 2)) (2 ^ 64) ≡ true =
        ground (arith, below, height-small) in
      rw small refl

  -- The screen with its cursor moved.
  moved-IsScreen :
      (x y : ℕ)
      → x + (v.font.width + 2) < v.width
      → y + v.font.height + n * (v.font.height + 2) ≤ v.height
      → IsScreen stride n (record v { cursor_x = x; cursor_y = y })
  moved-IsScreen x y in_line room = record {
    pitch = ok.pitch;
    wide = ok.wide;
    byte_wide = ok.byte_wide;
    fits = ok.fits;
    wraps = ok.wraps;
    in_line = in_line;
    room = room;
  }

  lower-IsScreen : IsScreen stride n (next_line v)
  lower-IsScreen = moved-IsScreen 10 _ ok.wraps (omega (arith, below))

  stride-small : 5 * stride < 2 ^ 64
  stride-small =
      let line : 1 * v.pitch ≤ v.height * v.pitch =
        mul-le-mul_right v.pitch (omega (arith, below)) in
      omega (arith, ok.fits, ok.pitch, line)

  abbrev Advanced : Video → Type 0
  Advanced v' =
      (advance v ≡ done v')
      × IsScreen stride n v'
      × (v'.font ≡ v.font)
      × (v'.width ≡ v.width)
      × (v'.height ≡ v.height)

  advance-behind : Advanced (behind v)
  unfolding advance
  advance-behind =
      let next = v.cursor_x + (v.font.width + 2) in
      let a : ltb next (2 ^ 64) ≡ true =
        ground (arith, ok.in_line, ok.wide, stride-small, ok.wraps) in
      let b : ltb (next + (v.font.width + 2)) (2 ^ 64) ≡ true =
        ground (arith, ok.in_line, ok.wide, stride-small, ok.wraps) in
      elim (Bool-cases (leb v.width (next + (v.font.width + 2)))) [
        | inl e ↦ rw (a, b, e) (new_line-done, lower-IsScreen, refl, refl, refl)
        | inr e ↦
            rw (a, b, e)
              (
                refl,
                moved-IsScreen next v.cursor_y (ground (arith, e)) (omega (arith, below)),
                refl,
                refl,
                refl,
              )
      ]

  drawable : (c : ℕ) → InFont v.font c → IsDrawable stride v (c * v.font.height)
  drawable c (inside, small) = record {
    pitch = ok.pitch;
    byte_wide = ok.byte_wide;
    in_font = inside;
    index_fits = small;
    in_line = omega (arith, ok.in_line, ok.wide);
    fits =
        (let rows : (v.cursor_y + v.font.height) * v.pitch ≤ v.height * v.pitch =
            mul-le-mul_right v.pitch (omega (arith, below)) in
          omega (arith, rows, ok.fits));
  }

  -- The pixels of a glyph lie on the screen.
  glyph-on_screen :
      (index x y : ℕ)
      → (v.width ≤ x) ⊎ (v.height ≤ y)
      → on_glyph v index 0 v.font.height x y ≡ false
  glyph-on_screen index x y (inl right) = ground (arith, ok.in_line)
  glyph-on_screen index x y (inr down) = ground (arith, below)

  putc-IsShown :
      (fb : ℕ → ℕ) (c : ℕ)
      → (c ≡ 10) ⊎ InFont v.font c
      → IsShown stride n v (c ∷ []) fb (putc c 0xffffff (v, fb))
  unfolding putc
  putc-IsShown fb c known = elim (ℕ_discrete c 10) [
    | yes e ↦
        let at : (c == 10) ≡ true = ground arith in
        record {
          fb' = fb;
          result = rw (at, new_line-done) refl;
          drawn = λ x y hx. rw at refl;
          screen = rw at lower-IsScreen;
          font = rw at refl;
          width = rw at refl;
          height = rw at refl;
          kept = λ x y hx out. refl;
        }
    | no other ↦ elim known [
      | inl same ↦ absurd (other same)
      | inr inside ↦ visible other inside advance-behind
    ]
  ]
    where
      visible :
          (c ≢ 10)
          → InFont v.font c
          → Advanced (behind v)
          → IsShown stride n v (c ∷ []) fb (putc c 0xffffff (v, fb))
      visible other inside (moved, screen, font, width, height) =
          let (fb', drawn, all) =
            putc_lem stride c 0xffffff v (behind v) fb other (drawable c inside) moved in
          let glyph : (c == 10) ≡ false = ground arith in
          record {
            fb' = fb';
            result = drawn ∙ rw glyph refl;
            drawn = λ x y hx. rw glyph (
                all x y hx
                ∙ or_false (on_glyph v (c * v.font.height) 0 v.font.height x y)
                    (fb (pixel stride x y)));
            screen = rw glyph screen;
            font = rw glyph font;
            width = rw glyph width;
            height = rw glyph height;
            kept = λ x y hx out.
                all x y hx
                ∙ ap (λ (b : Bool). if b then 0xffffff else fb (pixel stride x y))
                    (glyph-on_screen (c * v.font.height) x y out);
          }

with_lines : (stride m n : ℕ) (v : Video) → m ≡ n → IsScreen stride m v → IsScreen stride n v
with_lines stride m n v e ok = rw e at ok

-- What is shown behind a first character.
then-IsShown :
    (stride k n : ℕ) (v : Video) (fb : ℕ → ℕ) (c : ℕ) (msg : List ℕ) {r : Outcome (Video × (ℕ → ℕ))}
    (s : IsShown stride k v (c ∷ []) fb r)
    → IsShown stride n (after c v) msg s.fb' (print msg (after c v, s.fb'))
    → IsShown stride n v (c ∷ msg) fb (r >>= print msg)
then-IsShown stride k n v fb c msg s t = record {
  fb' = t.fb';
  result = rw s.result t.result;
  drawn = λ x y hx.
      t.drawn x y hx
      ∙ ap (λ (z : ℕ). if text_lit (after c v) msg x y then 0xffffff else z) (s.drawn x y hx)
      ∙ chain (text_lit v (c ∷ []) x y) (text_lit (after c v) msg x y) (text_lit v (c ∷ msg) x y)
          0xffffff (fb (pixel stride x y)) (text_lit-first v c msg x y);
  screen = t.screen;
  font = t.font ∙ s.font;
  width = t.width ∙ s.width;
  height = t.height ∙ s.height;
  kept = λ x y hx out.
      t.kept x y hx (elim out [
        | inl right ↦ inl (omega (arith, s.width))
        | inr down ↦ inr (omega (arith, s.height))
      ])
      ∙ s.kept x y hx out;
}

-- A text whose characters are in the font, on a screen with room for a line per character, is drawn
-- without a panic: in the lines of the frame buffer exactly the pixels of its glyphs become white and
-- all others stay, each glyph at the place where the characters before it have left the cursor, which
-- moves on by a glyph and two pixels or, at a newline or where two glyphs no longer fit, to the start
-- of the next line. The cursor ends behind the text, where a glyph fits, and no pixel right of the
-- screen or below it changes.
pub print-IsShown :
    (stride n : ℕ) (v : Video) (fb : ℕ → ℕ) (msg : List ℕ)
    → IsScreen stride (length msg + n) v
    → AllInFont v.font msg
    → IsShown stride n v msg fb (print msg (v, fb))
unfolding print
print-IsShown stride n v fb [] ok known = record {
  fb' = fb;
  result = refl;
  drawn = λ x y hx. refl;
  screen = with_lines stride (0 + n) n v (omega arith) ok;
  font = refl;
  width = refl;
  height = refl;
  kept = λ x y hx out. refl;
}
print-IsShown stride n v fb (c ∷ msg) ok (first, rest) =
    let more = with_lines stride (suc (length msg) + n) (suc (length msg + n)) v (omega arith) ok in
    let s = putc-IsShown more fb c first in
    let known : AllInFont (after c v).font msg = rw s.font rest in
    then-IsShown stride (length msg + n) n v fb c msg s
      (print-IsShown stride n (after c v) s.fb' msg s.screen known)
