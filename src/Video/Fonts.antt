-- ===== src/Video/Fonts.antt =====
-- video/fonts/mod.rs: the font from the bytes of its file, which are a parameter here.
use griffin.Common.{ℕ, List, Outcome, done, panic, zero, suc, [], ◌∷◌, ◌>>=◌, ◌==◌, if◌then◌else◌}
use griffin.Fs.Ext2.Layout.{u32_at}

pub record PsfHeader : Type 0 where
  pub magic : ℕ
  pub version : ℕ
  pub hdr_size : ℕ
  pub flags : ℕ
  pub glyph_count : ℕ
  pub glyph_size : ℕ
  pub height : ℕ
  pub width : ℕ

abbrev pub psf_magic : ℕ
psf_magic = 0x864ab572

-- `&*(bytes as *const PsfHeader)`
abbrev pub psf_header : List ℕ → PsfHeader
psf_header bs = record {
  magic = u32_at bs 0;
  version = u32_at bs 4;
  hdr_size = u32_at bs 8;
  flags = u32_at bs 12;
  glyph_count = u32_at bs 16;
  glyph_size = u32_at bs 20;
  height = u32_at bs 24;
  width = u32_at bs 28;
}

pub record Font : Type 0 where
  pub bitmap : List ℕ
  pub height : ℕ
  pub width : ℕ

-- `&bytes[start..]`, which panics behind the end.
unfoldable pub suffix : List ℕ → ℕ → Outcome (List ℕ)
suffix bs zero = done bs
suffix [] (suc start) = panic
suffix (b ∷ bs) (suc start) = suffix bs start

-- `assert!(header.magic == PSF_MAGIC)`, and `&bytes[header.hdr_size as usize..]`.
unfoldable pub new_font : List ℕ → Outcome Font
new_font bs =
    let header = psf_header bs in
    if header.magic == psf_magic
    then (do
      bitmap ← suffix bs header.hdr_size
      done (record { bitmap = bitmap; height = header.height; width = header.width }))
    else panic
