-- ===== src/Prelude/Text.antt =====
-- What the program does with text: the test for blank text, and cutting slashes off the end.
use Prim.Native.Char.{code}
use Prim.Native.String.{String}
use Prim.Native.Nat.{ℕ}
use mathlib.Core.Path.{◌≡◌, refl}
use mathlib.Core.Bool.{Bool, true, false, ◌&&◌, ◌||◌}
use shelly_multiplexer.Prelude.Tests.{leb, nat_beq, if◌then◌else◌}

-- `char::is_whitespace`: the code points with Unicode's White_Space property.
abbrev pub is_whitespace : ℕ → Bool
is_whitespace c =
    (leb 9 c && leb c 13)
    || nat_beq c 0x20
    || nat_beq c 0x85
    || nat_beq c 0xa0
    || nat_beq c 0x1680
    || (leb 0x2000 c && leb c 0x200a)
    || nat_beq c 0x2028
    || nat_beq c 0x2029
    || nat_beq c 0x202f
    || nat_beq c 0x205f
    || nat_beq c 0x3000

-- `s.trim().is_empty()`
unfoldable pub is_blank : String → Bool
is_blank String.[] = true
is_blank (String.◌∷◌ c s) = is_whitespace (code c) && is_blank s

abbrev pub is_empty : String → Bool
is_empty String.[] = true
is_empty (String.◌∷◌ c s) = false

-- `s.trim_end_matches('/')`
unfoldable pub trim_end_slash : String → String
trim_end_slash String.[] = String.[]
trim_end_slash (String.◌∷◌ c s) =
    let rest = trim_end_slash s in
    if is_empty rest && nat_beq (code c) b'/' then String.[] else String.◌∷◌ c rest

unfoldable pub append_text : String → String → String
append_text String.[] t = t
append_text (String.◌∷◌ c s) t = String.◌∷◌ c (append_text s t)

is_blank_test : is_blank " \t " ≡ true
unfolding is_blank
is_blank_test = refl

trim_end_slash_test : trim_end_slash "http://a//" ≡ "http://a"
unfolding trim_end_slash
trim_end_slash_test = refl
