-- ===== src/App/Icon/Laws.antt =====
-- The icon of main.rs, pixel by pixel.
use e2e_console_messenger.Base.{
  ℕ, zero, suc, ◌+◌, ◌*◌, ◌≤◌, ◌<◌, ◌≡◌, ◌∙◌, refl, ap, Bool, true, false, Option, some, List, [],
  ◌∷◌, ◌&&◌, ◌||◌, ◌==◌, ==_iff, not, ltb, leb, any, length, get_elem?, Bytes, if◌then◌else◌, ◌>>=◌,
  Bool-cases, inl, inr, arith,
}
use e2e_console_messenger.Base.Integers.{ℤ, pos, negsuc, ◌+ℤ◌}
use e2e_console_messenger.App.Icon.{
  side, zeros, is_border, fill_colour, fill_row, fill_rows, dots, in_icon, as_u32, draw_dot,
  draw_dots, fallback_icon,
}
use e2e_console_messenger.App.Icon.Pixel.{Paints, channel, set_rgb-Paints, fill_pixel-Paints}

-- The values that the loops write.
abbrev value : ℕ → ℕ → ℕ → ℕ
value x y k = channel k (fill_colour x y)

-- One painted behind the other.
later :
    (a b c : Bool) (v w : ℕ) (old : Option ℕ)
    → (a ≡ true → v ≡ w)
    → (a || b) ≡ c
    → (if b then some w else if a then some v else old) ≡ (if c then some w else old)
later true true true v w old h e = refl
later true false true v w old h e = ap some (h refl)
later false b c v w old h e = rw e refl
later true true false v w old h e = cc
later true false false v w old h e = cc

same_pixel :
    (x y k x0 y0 : ℕ) → (x == x0 && y == y0) ≡ true → channel k (fill_colour x0 y0) ≡ value x y k
same_pixel x y k x0 y0 h =
    let same_x : x0 ≡ x = ground (arith, ==_iff x x0) in
    let same_y : y0 ≡ y = ground (arith, ==_iff y y0) in rw (same_x, same_y) refl

fill_row-Paints :
    (y0 left x0 : ℕ) (buf : Bytes)
    → length buf ≡ 4096
    → x0 + left ≤ 32
    → y0 < 32
    → Paints
        (λ x y k. y == y0 && (leb x0 x && ltb x (x0 + left)))
        value
        buf
        (fill_row y0 left x0 buf)
unfolding fill_row
fill_row-Paints y0 zero x0 buf size hx hy = record {
  out = buf;
  returns = refl;
  size = size;
  pixels = λ x y k h l. ground arith;
}
fill_row-Paints y0 (suc left) x0 buf size hx hy =
    let pixel = fill_pixel-Paints x0 y0 buf size (omega arith) hy in
    let rest = fill_row-Paints y0 left (x0 + 1) pixel.out pixel.size (omega arith) hy in
    record {
      out = rest.out;
      returns = rw (pixel.returns, ◌>>=◌) rest.returns;
      size = rest.size;
      pixels = λ x y k h l.
          rw (rest.pixels x y k h l, pixel.pixels x y k h l)
            (later (x == x0 && y == y0) _ _ _ _ _ (same_pixel x y k x0 y0) (ground arith));
    }

fill_rows-Paints :
    (left y0 : ℕ) (buf : Bytes)
    → length buf ≡ 4096
    → y0 + left ≤ 32
    → Paints (λ x y k. leb y0 y && ltb y (y0 + left)) value buf (fill_rows left y0 buf)
unfolding fill_rows
fill_rows-Paints zero y0 buf size hy = record {
  out = buf;
  returns = refl;
  size = size;
  pixels = λ x y k h l. ground arith;
}
fill_rows-Paints (suc left) y0 buf size hy =
    let row = fill_row-Paints y0 side 0 buf size (omega arith) (omega arith) in
    let rest = fill_rows-Paints left (y0 + 1) row.out row.size (omega arith) in
    record {
      out = rest.out;
      returns = rw (row.returns, ◌>>=◌) rest.returns;
      size = rest.size;
      pixels = λ x y k h l.
          rw (rest.pixels x y k h l, row.pixels x y k h l)
            (later (y == y0 && (leb 0 x && ltb x (0 + side))) _ _ _ _ _ (λ e. refl) (ground arith));
    }

-- A dot of the list stands at a pixel.
abbrev dot_at : ℕ → ℕ → ℤ × ℤ → Bool
dot_at x y (dx, dy) =
    (in_icon (pos 16 +ℤ dx) && in_icon (pos 16 +ℤ dy))
    && (x == as_u32 (pos 16 +ℤ dx) && y == as_u32 (pos 16 +ℤ dy))

in_icon-lt : (c : ℤ) → in_icon c ≡ true → as_u32 c < 32
unfolding in_icon as_u32
in_icon-lt (pos n) h = ground arith
in_icon-lt (negsuc n) h = cc

-- The first three bytes of the pixels with a dot.
abbrev dotted : List (ℤ × ℤ) → ℕ → ℕ → ℕ → Bool
dotted ds x y k = any (dot_at x y) ds && ltb k 3

channel_white : (k : ℕ) → channel k (255, 255, 255) ≡ 255
channel_white k = ground arith

draw_dots-Paints :
    (ds : List (ℤ × ℤ)) (buf : Bytes)
    → length buf ≡ 4096
    → Paints (dotted ds) (λ x y k. 255) buf (draw_dots ds buf)
unfolding draw_dots draw_dot
draw_dots-Paints [] buf size = record {
  out = buf;
  returns = refl;
  size = size;
  pixels = λ x y k h l. refl;
}
draw_dots-Paints ((dx, dy) ∷ ds) buf size =
    let cx = pos 16 +ℤ dx in
    let cy = pos 16 +ℤ dy in
    elim (Bool-cases (in_icon cx && in_icon cy)) [
      | inl e ↦
          let dot =
            set_rgb-Paints (as_u32 cx) (as_u32 cy) (255, 255, 255) buf size
              (in_icon-lt cx (ground arith)) (in_icon-lt cy (ground arith)) in
          let rest = draw_dots-Paints ds dot.out dot.size in
          record {
            out = rest.out;
            returns = rw (e, dot.returns, ◌>>=◌) rest.returns;
            size = rest.size;
            pixels = λ x y k h l.
                rw (rest.pixels x y k h l, dot.pixels x y k h l, e)
                  (later (x == as_u32 cx && (y == as_u32 cy && ltb k 3)) _ _ _ _ _
                    (λ p. channel_white k) (ground arith));
          }
      | inr e ↦
          let rest = draw_dots-Paints ds buf size in
          record {
            out = rest.out;
            returns = rw (e, ◌>>=◌) rest.returns;
            size = rest.size;
            pixels = λ x y k h l. rw (rest.pixels x y k h l, e) refl;
          }
    ]

length-zeros : (n : ℕ) → length (zeros n) ≡ n
unfolding zeros
length-zeros zero = refl
length-zeros (suc n) = ap suc (length-zeros n)

-- Where the white dots are.
abbrev pub white_dots : List (ℕ × ℕ)
white_dots = (12, 16) ∷ (15, 13) ∷ (15, 19) ∷ (18, 22) ∷ (18, 10) ∷ (21, 7) ∷ (21, 25) ∷ []

-- White dots on a field of 26 × 26 pixels in a frame of 3; the fourth byte is opaque.
abbrev pub icon_value : ℕ → ℕ → ℕ → ℕ
icon_value x y k =
    if any (λ (p : ℕ × ℕ). x == p.0 && y == p.1) white_dots
    then 255
    else if (leb 3 x && ltb x 29) && (leb 3 y && ltb y 29)
    then channel k (43, 82, 120)
    else channel k (80, 162, 233)

dots_lem : (x y : ℕ) → any (dot_at x y) dots ≡ any (λ (p : ℕ × ℕ). x == p.0 && y == p.1) white_dots
unfolding dots in_icon as_u32 ◌+ℤ◌
dots_lem x y = refl

value_lem :
    (x y k : ℕ)
    → x < 32
    → y < 32
    → value x y k ≡ (
        if (leb 3 x && ltb x 29) && (leb 3 y && ltb y 29)
        then channel k (43, 82, 120)
        else channel k (80, 162, 233))
unfolding fill_colour is_border
value_lem x y k hx hy =
    let border : is_border x y ≡ not ((leb 3 x && ltb x 29) && (leb 3 y && ltb y 29)) =
      ground arith in
    elim (Bool-cases ((leb 3 x && ltb x 29) && (leb 3 y && ltb y 29))) [
      | inl e ↦ rw (border, e) refl
      | inr e ↦ rw (border, e) refl
    ]

-- What the dots and the field give together.
by_layers :
    (k v : ℕ) (dot : Bool)
    → k < 4
    → (k ≡ 3 → v ≡ 255)
    → (if dot && ltb k 3 then some 255 else some v) ≡ some (if dot then 255 else v)
by_layers k v true l h = ground arith
by_layers k v false l h = refl

opaque_at : (k x y : ℕ) → k ≡ 3 → value x y k ≡ 255
opaque_at k x y e = rw e (opaque_of (fill_colour x y))
  where
    opaque_of : (colour : ℕ × ℕ × ℕ) → channel 3 colour ≡ 255
    opaque_of (r, g, b) = refl

inside : (y : ℕ) → y < 32 → (leb 0 y && ltb y (0 + side)) ≡ true
inside y h = ground arith

-- The icon is drawn without a write out of bounds: it has four bytes for each of its 32 × 32 pixels,
-- and the bytes of a pixel, in column x and row y, in rows from the top and each row from the left,
-- are those of a white dot, of the field or of the frame around it, all opaque.
pub fallback_icon_lem :
    (x y k : ℕ)
    → x < 32
    → y < 32
    → k < 4
    → (out : Bytes) × (fallback_icon ≡ some out)
      × (length out ≡ 32 * 32 * 4)
      × (get_elem? out ((y * 32 + x) * 4 + k) ≡ some (icon_value x y k))
unfolding fallback_icon
fallback_icon_lem x y k hx hy hk =
    let field = fill_rows-Paints side 0 (zeros 4096) (length-zeros 4096) (omega arith) in
    let all_dots = draw_dots-Paints dots field.out field.size in
    (
      all_dots.out,
      rw (field.returns, ◌>>=◌) (all_dots.returns),
      all_dots.size,
      rw (all_dots.pixels x y k hx hk, field.pixels x y k hx hk, inside y hy)
          (by_layers k (value x y k) (any (dot_at x y) dots) hk (opaque_at k x y)
            ∙ ap some (rw (dots_lem x y, value_lem x y k hx hy) refl)),
    )
