-- ===== src/Str/Fields.antt =====
-- Words with single spaces between them, which `split_whitespace` takes apart, and printed numbers.
use rtc_tunnel.Base.{
  ℕ, zero, suc, ◌+◌, ◌/◌, ◌%◌, ◌≡◌, refl, ◌∙◌, ap, false, List, [], ◌∷◌, ◌++◌, Text, arith, ◌==◌,
  if-false, if_holds, is_empty,
}
use rtc_tunnel.Str.{
  is_whitespace, trim_end, split_blank, nonempty, split_whitespace, prepend, digits_of, show_nat,
}
use rtc_tunnel.Str.Words.{
  IsWord, IsLine, IsWord-IsLine, IsLine-append, trim_end-prefix, visible, trim_end-IsWord,
}

unfoldable pub spaced : List Text → Text
spaced [] = []
spaced (w ∷ []) = w
spaced (w ∷ v ∷ ws) = w ++ (32 ∷ spaced (v ∷ ws))

-- Every item is a word that is not empty.
abbrev pub AreWords : List Text → Type 0
AreWords [] = Unit {0}
AreWords (w ∷ ws) = (is_empty w ≡ false) × IsWord w × AreWords ws

split_blank-append :
    (w rest : Text) → IsWord w → split_blank (w ++ (32 ∷ rest)) ≡ w ∷ split_blank rest
unfolding split_blank is_whitespace
split_blank-append [] rest h = refl
split_blank-append (c ∷ w) rest h =
    if-false _ _ h.0 ∙ ap (prepend c) (split_blank-append w rest h.1)

split_blank-IsWord : (c : ℕ) (w : Text) → IsWord (c ∷ w) → split_blank (c ∷ w) ≡ (c ∷ w) ∷ []
unfolding split_blank
split_blank-IsWord c [] h = if-false _ _ h.0
split_blank-IsWord c (d ∷ w) h = if-false _ _ h.0 ∙ ap (prepend c) (split_blank-IsWord d w h.1)

split_blank-spaced : (ws : List Text) → AreWords ws → split_blank (spaced ws) ≡ ws
unfolding spaced
split_blank-spaced [] h = unfold split_blank in refl
split_blank-spaced ([] ∷ []) h = cc
split_blank-spaced ((c ∷ w) ∷ []) h = split_blank-IsWord c w h.1
split_blank-spaced (w ∷ v ∷ ws) h =
    split_blank-append w (spaced (v ∷ ws)) h.1 ∙ ap (λ us. w ∷ us) (split_blank-spaced (v ∷ ws) h.2)

nonempty-AreWords : (ws : List Text) → AreWords ws → nonempty ws ≡ ws
unfolding nonempty
nonempty-AreWords [] h = refl
nonempty-AreWords (w ∷ ws) h = if-false _ _ h.0 ∙ ap (λ us. w ∷ us) (nonempty-AreWords ws h.2)

pub split_whitespace-spaced : (ws : List Text) → AreWords ws → split_whitespace (spaced ws) ≡ ws
unfolding split_whitespace
split_whitespace-spaced ws h = ap nonempty (split_blank-spaced ws h) ∙ nonempty-AreWords ws h

filled_before : (s t : Text) → is_empty s ≡ false → is_empty (s ++ t) ≡ false
filled_before [] t h = cc
filled_before (c ∷ s) t h = refl

spaced-filled : (w : Text) (ws : List Text) → AreWords (w ∷ ws) → is_empty (spaced (w ∷ ws)) ≡ false
unfolding spaced
spaced-filled w [] h = h.0
spaced-filled w (v ∷ ws) h = filled_before w (32 ∷ spaced (v ∷ ws)) h.0

pub trim_end-spaced :
    (w : Text) (ws : List Text) → AreWords (w ∷ ws) → trim_end (spaced (w ∷ ws)) ≡ spaced (w ∷ ws)
unfolding spaced
trim_end-spaced w [] h = trim_end-IsWord w h.1
trim_end-spaced w (v ∷ ws) h =
    trim_end-prefix w (32 ∷ spaced (v ∷ ws))
      (trim_end-prefix (32 ∷ []) (spaced (v ∷ ws)) (trim_end-spaced v ws h.2)
        (spaced-filled v ws h.2))
      refl

pub spaced-IsLine : (ws : List Text) → AreWords ws → IsLine (spaced ws)
unfolding spaced
spaced-IsLine [] h = tt
spaced-IsLine (w ∷ []) h = IsWord-IsLine w h.1
spaced-IsLine (w ∷ v ∷ ws) h =
    IsLine-append w (32 ∷ spaced (v ∷ ws)) (IsWord-IsLine w h.1) (refl, spaced-IsLine (v ∷ ws) h.2)

digits_of-IsWord : (fuel n : ℕ) (acc : Text) → IsWord acc → IsWord (digits_of fuel n acc)
unfolding digits_of
digits_of-IsWord zero n acc h = h
digits_of-IsWord (suc fuel) n acc h =
    let d : IsWord ((48 + n % 10) ∷ acc) = (visible (48 + n % 10) (omega arith) (omega arith), h) in
    if_holds IsWord (n / 10 == 0) (λ _. d)
      (λ _. digits_of-IsWord fuel (n / 10) ((48 + n % 10) ∷ acc) d)

pub show_nat-IsWord : (n : ℕ) → IsWord (show_nat n)
unfolding show_nat
show_nat-IsWord n = digits_of-IsWord 20 n [] tt
