-- ===== src/Str.antt =====
-- The functions of Rust's `str` that the tunnel reads SDP with, over code points.
pub mod Words
pub mod Fields
use rtc_tunnel.Base.{
  ℕ, suc, ◌+◌, ◌/◌, ◌%◌, zero, Bool, true, false, ◌&&◌, ◌||◌, Option, none, some, List, [], ◌∷◌,
  ◌++◌, map, Text, ◌==◌, leb, if◌then◌else◌, is_empty,
}

-- Unicode `White_Space`
unfoldable pub is_whitespace : ℕ → Bool
is_whitespace c =
    (leb 9 c && leb c 13)
    || (c == 32
        || (c == 0x85
            || (c == 0xA0
                || (c == 0x1680
                    || ((leb 0x2000 c && leb c 0x200A)
                        || (c == 0x2028
                            || (c == 0x2029 || (c == 0x202F || (c == 0x205F || c == 0x3000)))))))))

unfoldable pub trim_start : Text → Text
trim_start [] = []
trim_start (c ∷ cs) = let rest = trim_start cs in if is_whitespace c then rest else c ∷ cs

unfoldable pub trim_end : Text → Text
trim_end [] = []
trim_end (c ∷ cs) =
    let rest = trim_end cs in if is_empty rest && is_whitespace c then [] else c ∷ rest

unfoldable pub trim : Text → Text
unfolding trim_start trim_end is_whitespace
trim s = trim_end (trim_start s)

unfoldable pub text_eq : Text → Text → Bool
text_eq [] [] = true
text_eq [] (_ ∷ _) = false
text_eq (_ ∷ _) [] = false
text_eq (a ∷ s) (b ∷ t) = a == b && text_eq s t

unfoldable pub strip_prefix : Text → Text → Option Text
strip_prefix [] s = some s
strip_prefix (p ∷ ps) [] = none
strip_prefix (p ∷ ps) (c ∷ cs) = let rest = strip_prefix ps cs in if p == c then rest else none

abbrev first_with : ℕ → Option (Text × Text) → Option (Text × Text)
first_with c none = none
first_with c (some (l, r)) = some (c ∷ l, r)

-- `split_once(' ')`
pub split_once_space : Text → Option (Text × Text)
split_once_space [] = none
split_once_space (c ∷ cs) =
    let rest = split_once_space cs in if c == 32 then some ([], cs) else first_with c rest

abbrev prepend : ℕ → List Text → List Text
prepend c [] = (c ∷ []) ∷ []
prepend c (l ∷ ls) = (c ∷ l) ∷ ls

-- `lines`: the pieces between line feeds, the last one left out if it is empty. A carriage return
-- goes with the line feed behind it.
abbrev feeds : Text → Bool
feeds [] = false
feeds (c ∷ _) = c == 10

unfoldable pub lines : Text → List Text
lines [] = []
lines (c ∷ cs) =
    let rest = lines cs in
    if c == 10 then [] ∷ rest else if c == 13 && feeds cs then rest else prepend c rest

split_blank : Text → List Text
split_blank [] = []
split_blank (c ∷ cs) =
    let rest = split_blank cs in if is_whitespace c then [] ∷ rest else prepend c rest

pub nonempty : List Text → List Text
nonempty [] = []
nonempty (w ∷ ws) = let rest = nonempty ws in if is_empty w then rest else w ∷ rest

unfoldable pub split_whitespace : Text → List Text
unfolding split_blank nonempty is_whitespace
split_whitespace s = nonempty (split_blank s)

unfoldable pub contains_char : ℕ → Text → Bool
contains_char c [] = false
contains_char c (d ∷ ds) = c == d || contains_char c ds

-- `Display` of an unsigned integer: twenty digits hold every `u64`.
digits_of : ℕ → ℕ → Text → Text
digits_of zero n acc = acc
digits_of (suc fuel) n acc =
    let more = digits_of fuel (n / 10) ((48 + n % 10) ∷ acc) in
    if n / 10 == 0 then (48 + n % 10) ∷ acc else more

unfoldable pub show_nat : ℕ → Text
unfolding digits_of
show_nat n = digits_of 20 n []

-- `{b:02x}` of each byte, joined by colons.
abbrev pub hex_digit : ℕ → ℕ
hex_digit d = if leb d 9 then 48 + d else 87 + d

unfoldable pub hex_byte : ℕ → Text
hex_byte b = hex_digit (b / 16) ∷ hex_digit (b % 16) ∷ []

unfoldable pub hex_join : List ℕ → Text
unfolding hex_byte
hex_join [] = []
hex_join (b ∷ []) = hex_byte b
hex_join (b ∷ c ∷ bs) = hex_byte b ++ 58 ∷ hex_join (c ∷ bs)
