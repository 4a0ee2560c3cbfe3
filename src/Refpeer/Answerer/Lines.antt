-- ===== src/Refpeer/Answerer/Lines.antt =====
-- crates/rtc-tunnel-refpeer/src/answerer.rs: counts over the lines that the process prints.
use rtc_tunnel.Base.{
  ℕ, ◌+◌, ◌≤◌, ◌≡◌, refl, ap, ◌∙◌, Bool, true, false, List, [], ◌∷◌, ◌++◌, arith, flag,
}
use rtc_tunnel.Refpeer.Answerer.{Line, port_line, answer_line, open_line, msg_line, closed_line}

abbrev pub open_one : Line → ℕ
open_one open_line = 1
open_one (port_line _) = 0
open_one (answer_line _) = 0
open_one (msg_line _ _) = 0
open_one (closed_line _) = 0

abbrev pub closed_one : Line → ℕ
closed_one (closed_line _) = 1
closed_one open_line = 0
closed_one (port_line _) = 0
closed_one (answer_line _) = 0
closed_one (msg_line _ _) = 0

abbrev pub open_lines : List Line → ℕ
open_lines [] = 0
open_lines (l ∷ ls) = open_one l + open_lines ls

abbrev pub closed_lines : List Line → ℕ
closed_lines [] = 0
closed_lines (l ∷ ls) = closed_one l + closed_lines ls

abbrev pub number_of : Line → List ℕ → List ℕ
number_of (msg_line n _) ns = n ∷ ns
number_of open_line ns = ns
number_of (port_line _) ns = ns
number_of (answer_line _) ns = ns
number_of (closed_line _) ns = ns

-- The numbers of the `MSG` lines, in order.
abbrev pub numbers : List Line → List ℕ
numbers [] = []
numbers (l ∷ ls) = number_of l (numbers ls)

pub open_lines-append : (xs ys : List Line) → open_lines (xs ++ ys) ≡ open_lines xs + open_lines ys
open_lines-append [] ys = omega arith
open_lines-append (x ∷ xs) ys = omega (arith, open_lines-append xs ys)

pub closed_lines-append :
    (xs ys : List Line) → closed_lines (xs ++ ys) ≡ closed_lines xs + closed_lines ys
closed_lines-append [] ys = omega arith
closed_lines-append (x ∷ xs) ys = omega (arith, closed_lines-append xs ys)

pub number_of-append : (l : Line) (ns ms : List ℕ) → number_of l (ns ++ ms) ≡ number_of l ns ++ ms
number_of-append (msg_line n t) ns ms = refl
number_of-append open_line ns ms = refl
number_of-append (port_line _) ns ms = refl
number_of-append (answer_line _) ns ms = refl
number_of-append (closed_line _) ns ms = refl

pub numbers-append : (xs ys : List Line) → numbers (xs ++ ys) ≡ numbers xs ++ numbers ys
numbers-append [] ys = refl
numbers-append (x ∷ xs) ys =
    ap (number_of x) (numbers-append xs ys) ∙ number_of-append x (numbers xs) (numbers ys)

pub flag-le : (b : Bool) → flag b ≤ 1
flag-le true = omega arith
flag-le false = omega arith
