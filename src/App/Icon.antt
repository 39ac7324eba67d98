-- ===== src/App/Icon.antt =====
-- `fallback_icon` of main.rs: the pixels of the icon that is drawn if there is no file. Writing out of
-- bounds panics, which is `none`.
pub mod Pixel
pub mod Laws
use e2e_console_messenger.Base.{
  ℕ, zero, suc, ◌+◌, ◌-◌, ◌*◌, ◌^◌, Bool, false, Option, none, some, List, [], ◌∷◌, ◌&&◌, ◌||◌, ltb,
  leb, Bytes, if◌then◌else◌, ◌>>=◌,
}
use e2e_console_messenger.Base.Integers.{ℤ, pos, negsuc, ◌+ℤ◌}

abbrev pub side : ℕ
side = 32

-- `vec![0u8; n]`.
unfoldable pub zeros : ℕ → Bytes
zeros zero = []
zeros (suc n) = 0 ∷ zeros n

-- `rgba[i] = v`.
unfoldable pub set_at : ℕ → ℕ → Bytes → Option Bytes
set_at i v [] = none
set_at zero v (b ∷ buf) = some (v ∷ buf)
set_at (suc i) v (b ∷ buf) = elim (set_at i v buf) [ none ↦ none | some l ↦ some (b ∷ l) ]

unfoldable pub set_rgb : ℕ → ℕ × ℕ × ℕ → Bytes → Option Bytes
unfolding set_at
set_rgb i (r, g, b) buf = do
  buf1 ← set_at i r buf
  buf2 ← set_at (i + 1) g buf1
  set_at (i + 2) b buf2

unfoldable pub is_border : ℕ → ℕ → Bool
is_border x y = ltb x 3 || (ltb y 3 || (leb (side - 3) x || leb (side - 3) y))

unfoldable pub fill_colour : ℕ → ℕ → ℕ × ℕ × ℕ
unfolding is_border
fill_colour x y = if is_border x y then (80, 162, 233) else (43, 82, 120)

-- The body of the inner loop.
unfoldable pub fill_pixel : ℕ → ℕ → Bytes → Option Bytes
unfolding set_rgb fill_colour
fill_pixel y x buf = do
  let i = (y * side + x) * 4
  buf1 ← set_rgb i (fill_colour x y) buf
  set_at (i + 3) 255 buf1

-- The inner loop with `left` columns to go, and the outer one with `left` rows.
unfoldable pub fill_row : ℕ → ℕ → ℕ → Bytes → Option Bytes
fill_row y zero x buf = some buf
fill_row y (suc left) x buf = fill_pixel y x buf >>= fill_row y left (x + 1)

unfoldable pub fill_rows : ℕ → ℕ → Bytes → Option Bytes
fill_rows zero y buf = some buf
fill_rows (suc left) y buf = fill_row y side 0 buf >>= fill_rows left (y + 1)

unfoldable pub dots : List (ℤ × ℤ)
dots =
    (negsuc 3, pos 0)
    ∷ (negsuc 0, negsuc 2)
    ∷ (negsuc 0, pos 3)
    ∷ (pos 2, pos 6)
    ∷ (pos 2, negsuc 5)
    ∷ (pos 5, negsuc 8)
    ∷ (pos 5, pos 9)
    ∷ []

-- `c >= 0 && c < 32`.
unfoldable pub in_icon : ℤ → Bool
in_icon (pos n) = ltb n 32
in_icon (negsuc n) = false

-- `c as u32`.
unfoldable pub as_u32 : ℤ → ℕ
as_u32 (pos n) = n
as_u32 (negsuc n) = 2 ^ 32 - suc n

unfoldable pub draw_dot : ℤ × ℤ → Bytes → Option Bytes
unfolding ◌+ℤ◌ set_rgb in_icon as_u32
draw_dot (dx, dy) buf =
    let cx = pos 16 +ℤ dx in
    let cy = pos 16 +ℤ dy in
    if in_icon cx && in_icon cy
    then set_rgb ((as_u32 cy * side + as_u32 cx) * 4) (255, 255, 255) buf
    else some buf

unfoldable pub draw_dots : List (ℤ × ℤ) → Bytes → Option Bytes
draw_dots [] buf = some buf
draw_dots (dot ∷ more) buf = draw_dot dot buf >>= draw_dots more

unfoldable pub fallback_icon : Option Bytes
unfolding zeros fill_rows draw_dots dots
fallback_icon = fill_rows side 0 (zeros (side * side * 4)) >>= draw_dots dots
