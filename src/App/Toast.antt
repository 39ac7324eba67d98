-- ===== src/App/Toast.antt =====
-- The text of a notification in main.rs: `xml_esc`, for the XML that Windows is given.
pub mod Laws
use e2e_console_messenger.Base.{ℕ, [], ◌∷◌, ◌++◌, ◌==◌, Text, codes, if◌then◌else◌}

-- `str::replace` of a character by a text.
unfoldable pub replace : ℕ → Text → Text → Text
replace from to [] = []
replace from to (ch ∷ s) =
    let rest = replace from to s in if ch == from then to ++ rest else ch ∷ rest

unfoldable pub xml_esc : Text → Text
unfolding replace
xml_esc s = replace b'\'' (codes "&apos;") (
    replace b'"' (codes "&quot;")
      (replace b'>' (codes "&gt;") (replace b'<' (codes "&lt;") (replace b'&' (codes "&amp;") s))))
