-- ===== src/Access/Paths/Order.antt =====
-- `prefix_covers` (src/accounts/users.rs) is an order on paths, and what covers one path is a chain.
use toolsite.Common.{
  ◌≤◌, ◌≡◌, refl, Bool, true, false, ◌&&◌, ◌||◌, [], ◌∷◌, ◌++◌, arith, ◌==◌, Text, same,
  text_discrete, starts_with, length,
}
use toolsite.Access.Paths.{slash, is_empty, prefix_covers}

-- At or under a path, read byte by byte.
abbrev below : Text → Text → Bool
below [] [] = true
below [] (c ∷ p) = c == slash
below (x ∷ a) [] = false
below (x ∷ a) (c ∷ p) = c == x && below a p

below-eq : (a p : Text) → (same p a || starts_with p (a ++ slash ∷ [])) ≡ below a p
unfolding text_discrete
below-eq [] [] = refl
below-eq [] (c ∷ p) = ground arith
below-eq (x ∷ a) [] = refl
below-eq (x ∷ a) (c ∷ p) = ground (arith, below-eq a p)

below_trans : (a b c : Text) → below a b ≡ true → below b c ≡ true → below a c ≡ true
below_trans [] [] c h k = k
below_trans [] (y ∷ b) [] h k = cc
below_trans [] (y ∷ b) (z ∷ c) h k = ground arith
below_trans (x ∷ a) [] c h k = cc
below_trans (x ∷ a) (y ∷ b) [] h k = cc
below_trans (x ∷ a) (y ∷ b) (z ∷ c) h k = ground (arith, below_trans a b c)

below-chain :
    (a b p : Text) → below a p ≡ true → below b p ≡ true → length a ≤ length b → below a b ≡ true
below-chain [] [] p h k l = refl
below-chain [] (y ∷ b) [] h k l = cc
below-chain [] (y ∷ b) (z ∷ p) h k l = ground arith
below-chain (x ∷ a) [] p h k l = absurd (omega arith)
below-chain (x ∷ a) (y ∷ b) [] h k l = cc
below-chain (x ∷ a) (y ∷ b) (z ∷ p) h k l = ground (arith, below-chain a b p)

below-length : (a p : Text) → below a p ≡ true → length a ≤ length p
below-length [] p h = omega arith
below-length (x ∷ a) [] h = cc
below-length (x ∷ a) (c ∷ p) h = ground (arith, below-length a p)

covers-eq : (a p : Text) → prefix_covers a p ≡ (is_empty a || below a p)
unfolding prefix_covers
covers-eq [] p = refl
covers-eq (x ∷ a) p = below-eq (x ∷ a) p

pub covers_trans :
    (a b c : Text) → prefix_covers a b ≡ true → prefix_covers b c ≡ true → prefix_covers a c ≡ true
covers_trans [] b c h k = ground (arith, covers-eq [] c)
covers_trans (x ∷ a) [] c h k = ground (arith, covers-eq (x ∷ a) [])
covers_trans (x ∷ a) (y ∷ b) c h k = ground (
  arith,
  covers-eq (x ∷ a) (y ∷ b),
  covers-eq (y ∷ b) c,
  covers-eq (x ∷ a) c,
  below_trans (x ∷ a) (y ∷ b) c,
)

-- Of two prefixes that cover one path, the shorter covers the longer.
pub covers-chain :
    (a b p : Text)
    → prefix_covers a p ≡ true
    → prefix_covers b p ≡ true
    → length a ≤ length b
    → prefix_covers a b ≡ true
covers-chain [] b p h k l = ground (arith, covers-eq [] b)
covers-chain (x ∷ a) [] p h k l = absurd (omega arith)
covers-chain (x ∷ a) (y ∷ b) p h k l = ground (
  arith,
  covers-eq (x ∷ a) p,
  covers-eq (y ∷ b) p,
  covers-eq (x ∷ a) (y ∷ b),
  below-chain (x ∷ a) (y ∷ b) p,
)

pub covers_refl : (a : Text) → prefix_covers a a ≡ true
unfolding prefix_covers
covers_refl a = ground arith

pub covers-length : (a p : Text) → prefix_covers a p ≡ true → length a ≤ length p
covers-length [] p h = omega arith
covers-length (x ∷ a) p h = ground (arith, covers-eq (x ∷ a) p, below-length (x ∷ a) p)
