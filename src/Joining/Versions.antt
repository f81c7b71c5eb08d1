-- ===== src/Joining/Versions.antt =====
-- How versions are compared.
use fubble.Base.{ℕ, ◌<◌, ◌≡◌, ◌≢◌, refl, true, false, [], ◌∷◌, ◌++◌, arith}
use fubble.Joining.{Bytes, before_dash, at_most, is_accepted}

before_dash-append : (m x : Bytes) → before_dash (m ++ b'-' ∷ x) ≡ before_dash m
unfolding before_dash
before_dash-append [] x = refl
before_dash-append (c ∷ m) x = rw (before_dash-append m x) refl

-- What follows a dash, as in a pre-release, makes no difference.
is_accepted-suffix :
    (m i x y : Bytes) → is_accepted (m ++ b'-' ∷ x) (i ++ b'-' ∷ y) ≡ is_accepted m i
unfolding is_accepted
is_accepted-suffix m i x y = rw (before_dash-append m x, before_dash-append i y) refl

abbrev pub HasNoDash : Bytes → Type 0
HasNoDash [] = Unit
HasNoDash (c ∷ s) = (c ≢ b'-') × HasNoDash s

-- The first byte at which two versions differ decides, whatever digits follow: a greater digit of
-- the minimum refuses the installed version, even if its number has more digits.
first_byte_decides :
    (p r s : Bytes) (d e : ℕ)
    → HasNoDash p
    → d < e
    → d ≢ b'-'
    → e ≢ b'-'
    → is_accepted (p ++ e ∷ r) (p ++ d ∷ s) ≡ false
unfolding is_accepted before_dash at_most
first_byte_decides [] r s d e n l f g = ground arith
first_byte_decides (c ∷ p) r s d e n l f g = ground (arith, first_byte_decides p r s d e n.1 l f g)

-- Every version accepts itself, and of two versions one accepts the other.
at_most_total : (a b : Bytes) → at_most a b ≡ false → at_most b a ≡ true
unfolding at_most
at_most_total [] b h = ground arith
at_most_total (x ∷ a) [] h = refl
at_most_total (x ∷ a) (y ∷ b) h = ground (arith, at_most_total a b)

at_most_trans : (a b c : Bytes) → at_most a b ≡ true → at_most b c ≡ true → at_most a c ≡ true
unfolding at_most
at_most_trans [] b c h k = refl
at_most_trans (x ∷ a) [] c h k = ground arith
at_most_trans (x ∷ a) (y ∷ b) [] h k = ground arith
at_most_trans (x ∷ a) (y ∷ b) (z ∷ c) h k = ground (arith, at_most_trans a b c)

-- An installed version that meets a minimum meets every lower one.
is_accepted_trans :
    (m n i : Bytes) → is_accepted m n ≡ true → is_accepted n i ≡ true → is_accepted m i ≡ true
unfolding is_accepted
is_accepted_trans m n i h k = at_most_trans (before_dash m) (before_dash n) (before_dash i) h k
