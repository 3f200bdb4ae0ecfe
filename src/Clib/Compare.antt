-- ===== src/Clib/Compare.antt =====
-- string.h: strcmp and strncmp, whose results the program only compares with 0, and strlen.
use scsi_cli.Prelude.{
  Bool, Text, [], arith, false, length, refl, suc, true, zero, ℕ, ◌&&◌, ◌++◌, ◌==◌, ◌↔◌, ◌∷◌, ◌≡◌,
  ◌≢◌,
}

-- strcmp(a, b) == 0
abbrev pub strcmp_eq : Text → Text → Bool
strcmp_eq [] [] = true
strcmp_eq [] (y ∷ b) = false
strcmp_eq (x ∷ a) [] = false
strcmp_eq (x ∷ a) (y ∷ b) = x == y && strcmp_eq a b

-- strncmp(a, b, n) == 0
abbrev pub strncmp_eq : Text → Text → ℕ → Bool
strncmp_eq a b zero = true
strncmp_eq [] [] (suc n) = true
strncmp_eq [] (y ∷ b) (suc n) = false
strncmp_eq (x ∷ a) [] (suc n) = false
strncmp_eq (x ∷ a) (y ∷ b) (suc n) = x == y && strncmp_eq a b n

pub strcmp_eq_refl : (a : Text) → strcmp_eq a a ≡ true
strcmp_eq_refl [] = refl
strcmp_eq_refl (x ∷ a) = ground (arith, strcmp_eq_refl a)

pub strcmp_eq→eq : (a b : Text) → strcmp_eq a b ≡ true → a ≡ b
strcmp_eq→eq [] [] h = refl
strcmp_eq→eq [] (y ∷ b) h = cc
strcmp_eq→eq (x ∷ a) [] h = cc
strcmp_eq→eq (x ∷ a) (y ∷ b) h = ground (arith, strcmp_eq→eq a b)

pub strcmp_eq_iff : (a b : Text) → (strcmp_eq a b ≡ true) ↔ (a ≡ b)
strcmp_eq_iff a b = (strcmp_eq→eq a b, λ e. rw e (strcmp_eq_refl b))

-- strncmp with the length of the second text tests for a prefix.
pub strncmp_eq-append : (a b : Text) → strncmp_eq (a ++ b) a (length a) ≡ true
strncmp_eq-append [] b = refl
strncmp_eq-append (x ∷ a) b = ground (arith, strncmp_eq-append a b)

pub strcmp_eq→ne : (a b : Text) → strcmp_eq a b ≡ false → a ≢ b
strcmp_eq→ne a b h e = absurd (cc (strcmp_eq_refl a, h, e))
