-- ===== src/Tests/Bump.antt =====
-- An allocator that can be run: its heap is the list of the live addresses, and a new one goes above
-- them all.
use rtc_tunnel.Base.{
  ℕ, suc, ◌+◌, ◌≤◌, ◌≡◌, ◌≢◌, refl, true, false, Bool, ◌||◌, some, List, [], ◌∷◌, arith, ◌==◌,
  if◌then◌else◌,
}
use rtc_tunnel.Wasm.Memory.{Allocator}

abbrev member : List ℕ → ℕ → Bool
member [] p = false
member (x ∷ xs) p = (p == x) || member xs p

abbrev top : List ℕ → ℕ
top [] = 0
top (x ∷ xs) = x + top xs

abbrev remove : ℕ → List ℕ → List ℕ
remove p [] = []
remove p (x ∷ xs) = if p == x then remove p xs else x ∷ remove p xs

member-top : (xs : List ℕ) (p : ℕ) → member xs p ≡ true → p ≤ top xs
member-top [] p h = ground arith
member-top (x ∷ xs) p h = ground (arith, member-top xs p)

pub above : (xs : List ℕ) (p : ℕ) → suc (top xs) ≤ p → member xs p ≡ false
above [] p h = refl
above (x ∷ xs) p h = ground (arith, above xs p)

pub remove-dead : (xs : List ℕ) (p : ℕ) → member (remove p xs) p ≡ false
remove-dead [] p = refl
remove-dead (x ∷ xs) p = ground (arith, remove-dead xs p)

pub remove-others : (xs : List ℕ) (p q : ℕ) → q ≢ p → member (remove p xs) q ≡ member xs q
remove-others [] p q n = refl
remove-others (x ∷ xs) p q n = ground (arith, remove-others xs p q n)

pub member-cons : (xs : List ℕ) (x p : ℕ) → p ≢ x → member (x ∷ xs) p ≡ member xs p
member-cons xs x p n = ground arith

pub member-here : (xs : List ℕ) (x : ℕ) → member (x ∷ xs) x ≡ true
member-here xs x = ground arith

pub suc-nonzero : (n : ℕ) → suc n ≢ 0
suc-nonzero n e = ground arith

pub or-true : (a : Bool) {b : Bool} → b ≡ true → (a || b) ≡ true
or-true a h = ground arith

pub fresh : (xs : List ℕ) (p : ℕ) → some (suc (top xs)) ≡ some p → member xs p ≡ false
fresh xs p e = above xs p (ground (arith, e))

abbrev pub bump : Allocator
bump = record {
  Heap = List ℕ;
  live = member;
  new_box = λ h. (suc (top h), suc (top h) ∷ h);
  drop_box = remove;
  alloc = λ len h. (some (suc (top h)), suc (top h) ∷ h);
  dealloc = λ p len h. remove p h;
  new_box-nonnull = λ h. suc-nonzero (top h);
  new_box-fresh = λ h. above h (suc (top h)) (omega arith);
  new_box-live = λ h. member-here h (suc (top h));
  new_box-others = λ h p n. member-cons h (suc (top h)) p n;
  drop_box-dead = λ h p. remove-dead h p;
  drop_box-others = λ h p q n. remove-others h p q n;
  alloc-keeps = λ h len p live. or-true (p == suc (top h)) live;
  alloc-fresh = λ h len p e. fresh h p e;
  dealloc-others = λ h p len q n. remove-others h p q n;
}
