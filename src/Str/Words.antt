-- ===== src/Str/Words.antt =====
-- Texts without white space: `trim` leaves them alone, and the line reader keeps them whole.
use rtc_tunnel.Base.{
  ℕ, ◌/◌, ◌%◌, ◌≤◌, ◌<◌, ◌≡◌, refl, ◌∙◌, ap, Bool, true, false, not, ◌&&◌, none, some, [], ◌∷◌,
  ◌++◌, Bytes, Text, arith, ◌==◌, if-true, if-false, is_empty,
}
use rtc_tunnel.Str.{
  is_whitespace, trim_start, trim_end, trim, feeds, lines, split_once_space, first_with, prepend,
  hex_digit, hex_byte, hex_join, strip_prefix,
}

-- No character is white space.
abbrev pub IsWord : Text → Type 0
IsWord [] = Unit {0}
IsWord (c ∷ s) = (is_whitespace c ≡ false) × IsWord s

-- No character is a line feed.
abbrev pub IsLine : Text → Type 0
IsLine [] = Unit {0}
IsLine (c ∷ s) = ((c == 10) ≡ false) × IsLine s

not_feed : (c : ℕ) → is_whitespace c ≡ false → (c == 10) ≡ false
unfolding is_whitespace
not_feed c h = ground arith

not_space : (c : ℕ) → is_whitespace c ≡ false → (c == 32) ≡ false
unfolding is_whitespace
not_space c h = ground arith

unfoldable pub is_line : Text → Bool
is_line [] = true
is_line (c ∷ s) = not (c == 10) && is_line s

pub is_line-IsLine : (s : Text) → is_line s ≡ true → IsLine s
unfolding is_line
is_line-IsLine [] h = tt
is_line-IsLine (c ∷ s) h = (ground arith, is_line-IsLine s (ground arith))

pub IsWord-IsLine : (s : Text) → IsWord s → IsLine s
IsWord-IsLine [] w = tt
IsWord-IsLine (c ∷ s) w = (not_feed c w.0, IsWord-IsLine s w.1)

pub IsLine-append : (s t : Text) → IsLine s → IsLine t → IsLine (s ++ t)
IsLine-append [] t p q = q
IsLine-append (c ∷ s) t p q = (p.0, IsLine-append s t p.1 q)

IsWord-append : (s t : Text) → IsWord s → IsWord t → IsWord (s ++ t)
IsWord-append [] t p q = q
IsWord-append (c ∷ s) t p q = (p.0, IsWord-append s t p.1 q)

trim_start-cons : (c : ℕ) (s : Text) → is_whitespace c ≡ false → trim_start (c ∷ s) ≡ c ∷ s
unfolding trim_start
trim_start-cons c s h = if-false _ _ h

pub trim_end-cons : (c : ℕ) (s : Text) → is_whitespace c ≡ false → trim_end (c ∷ s) ≡ c ∷ trim_end s
unfolding trim_end
trim_end-cons c s h = if-false {b = is_empty (trim_end s) && is_whitespace c} _ _ (ground arith)

pub trim_end-IsWord : (s : Text) → IsWord s → trim_end s ≡ s
trim_end-IsWord [] w = unfold trim_end in refl
trim_end-IsWord (c ∷ s) w = trim_end-cons c s w.0 ∙ ap (λ t. c ∷ t) (trim_end-IsWord s w.1)

pub trim-cons : (c : ℕ) (s : Text) → is_whitespace c ≡ false → trim (c ∷ s) ≡ c ∷ trim_end s
unfolding trim
trim-cons c s h = ap trim_end (trim_start-cons c s h) ∙ trim_end-cons c s h

pub trim-IsWord : (s : Text) → IsWord s → trim s ≡ s
trim-IsWord [] w = unfold trim trim_start trim_end in refl
trim-IsWord (c ∷ s) w = trim-cons c s w.0 ∙ ap (λ t. c ∷ t) (trim_end-IsWord s w.1)

filled-append : (s : Text) (c : ℕ) (w : Text) → is_empty (s ++ c ∷ w) ≡ false
filled-append [] c w = refl
filled-append (d ∷ s) c w = refl

trim_end-filled :
    (c : ℕ) (s : Text) → is_empty (trim_end s) ≡ false → trim_end (c ∷ s) ≡ c ∷ trim_end s
unfolding trim_end
trim_end-filled c s h = if-false {b = is_empty (trim_end s) && is_whitespace c} _ _ (ground arith)

pub filled_after : (p s : Text) → is_empty s ≡ false → is_empty (p ++ s) ≡ false
filled_after [] s h = h
filled_after (c ∷ p) s h = refl

-- A text that ends in a word loses nothing at its end.
pub trim_end-append :
    (s : Text) (c : ℕ) (w : Text) → IsWord (c ∷ w) → trim_end (s ++ c ∷ w) ≡ s ++ c ∷ w
trim_end-append [] c w h = trim_end-IsWord (c ∷ w) h
trim_end-append (d ∷ s) c w h =
    let ih = trim_end-append s c w h in
    trim_end-filled d (s ++ c ∷ w) (ap is_empty ih ∙ filled-append s c w) ∙ ap (λ t. d ∷ t) ih

pub trim_end-prefix :
    (p s : Text) → trim_end s ≡ s → is_empty s ≡ false → trim_end (p ++ s) ≡ p ++ s
trim_end-prefix [] s e f = e
trim_end-prefix (c ∷ p) s e f =
    let ih = trim_end-prefix p s e f in
    trim_end-filled c (p ++ s) (ap is_empty ih ∙ filled_after p s f) ∙ ap (λ t. c ∷ t) ih

pub strip_prefix-append : (p s : Text) → strip_prefix p (p ++ s) ≡ some s
unfolding strip_prefix
strip_prefix-append [] s = refl
strip_prefix-append (c ∷ p) s = if-true {b = c == c} _ _ (ground arith) ∙ strip_prefix-append p s

pub strip_prefix-ne :
    (p c : ℕ) (ps s : Text) → (p == c) ≡ false → strip_prefix (p ∷ ps) (c ∷ s) ≡ none
unfolding strip_prefix
strip_prefix-ne p c ps s h = if-false _ _ h

feeds-append : (l rest : Text) → IsLine l → feeds (l ++ 13 ∷ 10 ∷ rest) ≡ false
feeds-append [] rest h = refl
feeds-append (c ∷ l) rest h = h.0

-- A line with its CR LF is the first of the lines.
pub lines-append : (l rest : Text) → IsLine l → lines (l ++ 13 ∷ 10 ∷ rest) ≡ l ∷ lines rest
unfolding lines
lines-append [] rest h = refl
lines-append (c ∷ l) rest h =
    if-false _ _ h.0
    ∙ if-false {b = c == 13 && feeds (l ++ 13 ∷ 10 ∷ rest)} _ _
        (ground (arith, feeds-append l rest h.1))
    ∙ ap (prepend c) (lines-append l rest h.1)

pub lines-nil : lines [] ≡ []
unfolding lines
lines-nil = refl

pub split_once_space-append :
    (w rest : Text) → IsWord w → split_once_space (w ++ 32 ∷ rest) ≡ some (w, rest)
unfolding split_once_space
split_once_space-append [] rest h = refl
split_once_space-append (c ∷ w) rest h =
    if-false _ _ (not_space c h.0) ∙ ap (first_with c) (split_once_space-append w rest h.1)

pub visible : (c : ℕ) → 33 ≤ c → c < 133 → is_whitespace c ≡ false
unfolding is_whitespace
visible c p q = ground arith

hex_digit-visible : (d : ℕ) → d < 16 → is_whitespace (hex_digit d) ≡ false
hex_digit-visible d h = visible (hex_digit d) (ground arith) (ground arith)

hex_byte-IsWord : (b : ℕ) → b < 256 → IsWord (hex_byte b)
unfolding hex_byte
hex_byte-IsWord b h =
    (hex_digit-visible (b / 16) (omega arith), (hex_digit-visible (b % 16) (omega arith), tt))

-- Every number of the list is a byte.
abbrev pub AreBytes : Bytes → Type 0
AreBytes [] = Unit {0}
AreBytes (b ∷ bs) = (b < 256) × AreBytes bs

hex_join-IsWord : (bs : Bytes) → AreBytes bs → IsWord (hex_join bs)
unfolding hex_join
hex_join-IsWord [] h = tt
hex_join-IsWord (b ∷ []) h = hex_byte-IsWord b h.0
hex_join-IsWord (b ∷ c ∷ bs) h =
    IsWord-append (hex_byte b) (58 ∷ hex_join (c ∷ bs)) (hex_byte-IsWord b h.0)
      (visible 58 (omega arith) (omega arith), hex_join-IsWord (c ∷ bs) h.1)
