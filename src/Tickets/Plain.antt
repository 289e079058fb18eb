-- ===== src/Tickets/Plain.antt =====
-- A cipher that meets the laws of src/state/tickets.rs, for the tests: what `CipherLaws` asks can hold.
use toolsite.Common.{
  ◌≡◌, ◌≢◌, refl, none, some, [], ◌∷◌, ◌++◌, arith, Text, length, strip_prefix, strip_prefix-append,
  text_discrete,
}
use toolsite.Tickets.Handle.{Cipher, CipherLaws}

-- A sealed text is the associated data, its length first, and then what was sealed.
abbrev pub plain_cipher : Cipher
plain_cipher = record {
  hash = λ a. a;
  encrypt = λ key nonce aad m. some (length aad ∷ (aad ++ m));
  decrypt = λ key nonce aad s. strip_prefix s (length aad ∷ aad);
}

pub some-eq : {A : Type 0} {a b : A} → some a ≡ some b → a ≡ b
some-eq e = cc

strip-other : (a b m : Text) → length a ≡ length b → a ≢ b → strip_prefix (a ++ m) b ≡ none
strip-other [] [] m l n = absurd (n refl)
strip-other [] (y ∷ b) m l n = absurd (omega arith)
strip-other (x ∷ a) [] m l n = absurd (omega arith)
strip-other (x ∷ a) (y ∷ b) m l n = elim (text_discrete a b) [
  | yes p ↦ ground (arith, n)
  | no q ↦ ground (arith, strip-other a b m (omega arith) q)
]

strip-framed : (a b m : Text) → a ≢ b → strip_prefix (length a ∷ (a ++ m)) (length b ∷ b) ≡ none
strip-framed a b m n = ground (arith, strip-other a b m)

pub plain_cipher-Laws : CipherLaws plain_cipher
plain_cipher-Laws = record {
  hash_injective = λ a b e. e;
  decrypt-encrypt =
      λ key nonce aad m s e. rw (← some-eq e) (strip_prefix-append (length aad ∷ aad) m);
  authentic = λ key nonce aad aad' m s e n. rw (← some-eq e) (strip-framed aad aad' m n);
}
