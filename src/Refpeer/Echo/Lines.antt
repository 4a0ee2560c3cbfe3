-- ===== src/Refpeer/Echo/Lines.antt =====
-- crates/rtc-tunnel-refpeer/src/main.rs: counts over the lines that the process prints.
use rtc_tunnel.Base.{ℕ, ◌+◌, ◌≡◌, refl, ap, ◌∙◌, List, [], ◌∷◌, ◌++◌, arith}
use rtc_tunnel.Refpeer.Echo.{
  Line, ready_line, answer_line, open_line, channel_closed_line, failed_line, echo_line, done_line,
}

abbrev pub open_one : Line → ℕ
open_one open_line = 1
open_one (ready_line _) = 0
open_one (answer_line _) = 0
open_one channel_closed_line = 0
open_one failed_line = 0
open_one (echo_line _) = 0
open_one done_line = 0

abbrev pub open_lines : List Line → ℕ
open_lines [] = 0
open_lines (l ∷ ls) = open_one l + open_lines ls

abbrev pub number_of : Line → List ℕ → List ℕ
number_of (echo_line n) ns = n ∷ ns
number_of open_line ns = ns
number_of (ready_line _) ns = ns
number_of (answer_line _) ns = ns
number_of channel_closed_line ns = ns
number_of failed_line ns = ns
number_of done_line ns = ns

-- The numbers of the `ECHO` lines, in order.
abbrev pub numbers : List Line → List ℕ
numbers [] = []
numbers (l ∷ ls) = number_of l (numbers ls)

pub open_lines-append : (xs ys : List Line) → open_lines (xs ++ ys) ≡ open_lines xs + open_lines ys
open_lines-append [] ys = omega arith
open_lines-append (x ∷ xs) ys = omega (arith, open_lines-append xs ys)

pub number_of-append : (l : Line) (ns ms : List ℕ) → number_of l (ns ++ ms) ≡ number_of l ns ++ ms
number_of-append (echo_line n) ns ms = refl
number_of-append open_line ns ms = refl
number_of-append (ready_line _) ns ms = refl
number_of-append (answer_line _) ns ms = refl
number_of-append channel_closed_line ns ms = refl
number_of-append failed_line ns ms = refl
number_of-append done_line ns ms = refl

pub numbers-append : (xs ys : List Line) → numbers (xs ++ ys) ≡ numbers xs ++ numbers ys
numbers-append [] ys = refl
numbers-append (x ∷ xs) ys =
    ap (number_of x) (numbers-append xs ys) ∙ number_of-append x (numbers xs) (numbers ys)
