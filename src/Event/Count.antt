-- ===== src/Event/Count.antt =====
-- How often an event queue reports that the tunnel opened or that it closed.
use rtc_tunnel.Base.{ℕ, ◌+◌, ◌≡◌, List, [], ◌∷◌, ◌++◌, arith}
use rtc_tunnel.Event.{Event, send_datagram, opened, message, closed}

abbrev opens_one : Event → ℕ
opens_one opened = 1
opens_one (send_datagram _) = 0
opens_one (message _) = 0
opens_one (closed _) = 0

abbrev closes_one : Event → ℕ
closes_one (closed _) = 1
closes_one opened = 0
closes_one (send_datagram _) = 0
closes_one (message _) = 0

abbrev pub opens : List Event → ℕ
opens [] = 0
opens (e ∷ es) = opens_one e + opens es

abbrev pub closes : List Event → ℕ
closes [] = 0
closes (e ∷ es) = closes_one e + closes es

pub opens-append : (xs ys : List Event) → opens (xs ++ ys) ≡ opens xs + opens ys
opens-append [] ys = omega arith
opens-append (x ∷ xs) ys = omega (arith, opens-append xs ys)

pub closes-append : (xs ys : List Event) → closes (xs ++ ys) ≡ closes xs + closes ys
closes-append [] ys = omega arith
closes-append (x ∷ xs) ys = omega (arith, closes-append xs ys)
