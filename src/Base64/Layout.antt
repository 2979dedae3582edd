-- ===== src/Base64/Layout.antt =====
-- The text of `rp_base64_encode` by a description that has no loop state: 6-bit values, padding and
-- line ends.
use rp_lib_utils.Common.{
  ℕ, ◌+◌, ◌-◌, ◌*◌, ◌/◌, ◌%◌, ◌≡◌, refl, arith, List, [], ◌∷◌, ◌++◌, append_assoc, append-nil,
  Bytes, ◌==◌, if◌then◌else◌,
}
use rp_lib_utils.Base64.Encode.{Writer, put_char}

-- The 6-bit values of the input; the last one is filled with zero bits.
unfoldable pub sextets : Bytes → List ℕ
sextets [] = []
sextets (a ∷ []) = a / 4 ∷ a % 4 * 16 ∷ []
sextets (a ∷ b ∷ []) = a / 4 ∷ (a % 4 * 16 + b / 16) ∷ b % 16 * 4 ∷ []
sextets (a ∷ b ∷ c ∷ input) =
    a / 4 ∷ (a % 4 * 16 + b / 16) ∷ (b % 16 * 4 + c / 64) ∷ c % 64 ∷ sextets input

-- What follows a character when there is room for `iw` characters, and the room behind that.
abbrev pub line_end : ℕ → Bytes
line_end iw = if iw == 1 then b'\n' ∷ [] else []

abbrev pub room : ℕ → ℕ → ℕ
room width iw = if iw == 1 then width else iw - 1

-- A line end behind each `width` characters; none at width 0.
unfoldable pub lines : ℕ → ℕ → Bytes → Bytes
lines width iw [] = []
lines width iw (c ∷ cs) = c ∷ (line_end iw ++ lines width (room width iw) cs)

unfoldable pub room_after : ℕ → ℕ → Bytes → ℕ
room_after width iw [] = iw
room_after width iw (c ∷ cs) = room_after width (room width iw) cs

pub put_char_lem :
    (width c : ℕ) (w : Writer)
    → put_char width c w ≡ record { out = w.out ++ (c ∷ line_end w.iw); iw = room width w.iw }
unfolding put_char
put_char_lem width c w = ground (arith, append_assoc w.out (c ∷ []) (b'\n' ∷ []))

-- The writer behind a run of characters.
unfoldable pub put_chars : ℕ → Bytes → Writer → Writer
put_chars width [] w = w
put_chars width (c ∷ cs) w = put_chars width cs (put_char width c w)

pub put_chars_lem :
    (width : ℕ) (cs : Bytes) (w : Writer)
    → put_chars width cs w
      ≡ record { out = w.out ++ lines width w.iw cs; iw = room_after width w.iw cs }
unfolding put_chars lines room_after
put_chars_lem width [] w = ground (arith, append-nil w.out)
put_chars_lem width (c ∷ cs) w =
    rw (put_char_lem, put_chars_lem width cs)
      (ground (arith, append_assoc w.out (c ∷ line_end w.iw) (lines width (room width w.iw) cs)))

pub put_chars-append :
    (width : ℕ) (cs ds : Bytes) (w : Writer)
    → put_chars width (cs ++ ds) w ≡ put_chars width ds (put_chars width cs w)
unfolding put_chars
put_chars-append width [] ds w = refl
put_chars-append width (c ∷ cs) ds w = put_chars-append width cs ds (put_char width c w)
