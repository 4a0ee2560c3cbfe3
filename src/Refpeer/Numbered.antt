-- ===== src/Refpeer/Numbered.antt =====
-- crates/rtc-tunnel-refpeer/src: the numbers of the lines that report an echo.
use rtc_tunnel.Base.{ℕ, zero, suc, ◌+◌, ◌≡◌, sym, ap, ◌∙◌, List, [], ◌∷◌, ◌++◌, arith}

-- 1, 2, … up to the count.
abbrev pub count_up : ℕ → List ℕ
count_up zero = []
count_up (suc n) = count_up n ++ suc n ∷ []

pub count_up-add_one : (n : ℕ) → count_up (n + 1) ≡ count_up n ++ (n + 1) ∷ []
count_up-add_one n =
    let e : n + 1 ≡ suc n = omega arith in ap count_up e ∙ ap (λ m. count_up n ++ m ∷ []) (sym e)
