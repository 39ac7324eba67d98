-- ===== src/App/Icon/Pixel.antt =====
-- One pixel of the icon of main.rs.
use e2e_console_messenger.Base.{
  ℕ, zero, suc, ◌+◌, ◌*◌, ◌<◌, ◌≡◌, ◌∙◌, refl, ap, Bool, Option, some, [], ◌∷◌, ◌&&◌, ◌==◌, ==_iff,
  ltb, length, get_elem?, Bytes, if◌then◌else◌, ◌>>=◌, arith,
}
use e2e_console_messenger.App.Icon.{side, set_at, set_rgb, fill_colour, fill_pixel}

-- A value written in range, the rest as it was.
set_at_lem :
    (i v : ℕ) (buf : Bytes)
    → i < length buf
    → (out : Bytes) × (set_at i v buf ≡ some out)
      × (length out ≡ length buf)
      × ((j : ℕ) → get_elem? out j ≡ (if j == i then some v else get_elem? buf j))
unfolding set_at
set_at_lem i v [] h = absurd (omega arith)
set_at_lem zero v (b ∷ buf) h = (v ∷ buf, refl, refl, at_zero)
  where
    at_zero : (j : ℕ) → get_elem? (v ∷ buf) j ≡ (if j == 0 then some v else get_elem? (b ∷ buf) j)
    at_zero zero = refl
    at_zero (suc j) = ground arith
set_at_lem (suc i) v (b ∷ buf) h =
    let (out, e, n, k) = set_at_lem i v buf (omega arith) in
    (b ∷ out, rw e refl, ap suc n, at_suc out k)
  where
    shifted : (j : ℕ) → (j == i) ≡ (suc j == suc i)
    shifted j = ground (arith, ==_iff j i, ==_iff (suc j) (suc i))

    at_suc :
        (out : Bytes)
        → ((j : ℕ) → get_elem? out j ≡ (if j == i then some v else get_elem? buf j))
        → (j : ℕ) → get_elem? (b ∷ out) j ≡ (if j == suc i then some v else get_elem? (b ∷ buf) j)
    at_suc out k zero = ground arith
    at_suc out k (suc j) = k j ∙ ap (λ c. if c then some v else get_elem? buf j) (shifted j)

abbrev pub channel : ℕ → ℕ × ℕ × ℕ → ℕ
channel k (r, g, b) = if k == 0 then r else if k == 1 then g else if k == 2 then b else 255

-- `r` is a normal result in which the pixels of `area` have the values of `value`, and the others
-- are as they were: a pixel is given by its column, its row and one of its four bytes.
pub record Paints (area : ℕ → ℕ → ℕ → Bool) (value : ℕ → ℕ → ℕ → ℕ) (buf : Bytes) (r : Option Bytes)
    : Type 0 where
  pub out : Bytes
  pub returns : r ≡ some out
  pub size : length out ≡ 4096
  pub pixels :
      (x y k : ℕ)
      → x < 32
      → k < 4
      → get_elem? out ((y * 32 + x) * 4 + k)
        ≡ (if area x y k then some (value x y k) else get_elem? buf ((y * 32 + x) * 4 + k))

-- Three bytes written one behind the other are the first three of one pixel.
by_pixel :
    (x y k x0 y0 r g b : ℕ) (old : Option ℕ)
    → x < 32
    → x0 < 32
    → k < 4
    → (if (y * 32 + x) * 4 + k == (y0 * 32 + x0) * 4 + 2
        then some b
        else if (y * 32 + x) * 4 + k == (y0 * 32 + x0) * 4 + 1
        then some g
        else if (y * 32 + x) * 4 + k == (y0 * 32 + x0) * 4
        then some r
        else old)
      ≡ (if x == x0 && (y == y0 && ltb k 3) then some (channel k (r, g, b)) else old)
by_pixel x y zero x0 y0 r g b old h hx l = ground arith
by_pixel x y (suc zero) x0 y0 r g b old h hx l = ground arith
by_pixel x y (suc (suc zero)) x0 y0 r g b old h hx l = ground arith
by_pixel x y (suc (suc (suc zero))) x0 y0 r g b old h hx l = ground arith
by_pixel x y (suc (suc (suc (suc k)))) x0 y0 r g b old h hx l = absurd (omega arith)

pub set_rgb-Paints :
    (x0 y0 : ℕ) (colour : ℕ × ℕ × ℕ) (buf : Bytes)
    → length buf ≡ 4096
    → x0 < 32
    → y0 < 32
    → Paints
        (λ x y k. x == x0 && (y == y0 && ltb k 3))
        (λ x y k. channel k colour)
        buf
        (set_rgb ((y0 * side + x0) * 4) colour buf)
unfolding set_rgb
set_rgb-Paints x0 y0 (r, g, b) buf size hx hy =
    let i = (y0 * 32 + x0) * 4 in
    let (buf1, e1, n1, k1) = set_at_lem i r buf (omega arith) in
    let (buf2, e2, n2, k2) = set_at_lem (i + 1) g buf1 (omega arith) in
    let (buf3, e3, n3, k3) = set_at_lem (i + 2) b buf2 (omega arith) in
    record {
      out = buf3;
      returns = rw (e1, ◌>>=◌, e2, e3) refl;
      size = omega arith;
      pixels = λ x y k h l.
          let j = (y * 32 + x) * 4 + k in
          rw (k3 j, k2 j, k1 j) (by_pixel x y k x0 y0 r g b (get_elem? buf j) h hx l);
    }

-- The fourth byte behind the other three.
by_alpha :
    (x y k x0 y0 : ℕ) (colour : ℕ × ℕ × ℕ) (old : Option ℕ)
    → x < 32
    → x0 < 32
    → k < 4
    → (if (y * 32 + x) * 4 + k == (y0 * 32 + x0) * 4 + 3
        then some 255
        else if x == x0 && (y == y0 && ltb k 3)
        then some (channel k colour)
        else old)
      ≡ (if x == x0 && y == y0 then some (channel k colour) else old)
by_alpha x y zero x0 y0 colour old h hx l = ground arith
by_alpha x y (suc zero) x0 y0 colour old h hx l = ground arith
by_alpha x y (suc (suc zero)) x0 y0 colour old h hx l = ground arith
by_alpha x y (suc (suc (suc zero))) x0 y0 colour old h hx l = ground arith
by_alpha x y (suc (suc (suc (suc k)))) x0 y0 colour old h hx l = absurd (omega arith)

pub fill_pixel-Paints :
    (x0 y0 : ℕ) (buf : Bytes)
    → length buf ≡ 4096
    → x0 < 32
    → y0 < 32
    → Paints
        (λ x y k. x == x0 && y == y0)
        (λ x y k. channel k (fill_colour x0 y0))
        buf
        (fill_pixel y0 x0 buf)
unfolding fill_pixel
fill_pixel-Paints x0 y0 buf size hx hy =
    let rgb = set_rgb-Paints x0 y0 (fill_colour x0 y0) buf size hx hy in
    let (out, e, n, at_j) =
      set_at_lem ((y0 * 32 + x0) * 4 + 3) 255 rgb.out (omega (arith, rgb.size)) in
    record {
      out = out;
      returns = rw (rgb.returns, ◌>>=◌) e;
      size = n ∙ rgb.size;
      pixels = λ x y k h l.
          rw (at_j ((y * 32 + x) * 4 + k), rgb.pixels x y k h l)
            (by_alpha x y k x0 y0 (fill_colour x0 y0) (get_elem? buf ((y * 32 + x) * 4 + k)) h hx
              l);
    }
