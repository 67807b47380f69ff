-- ===== src/Auth/Passwords.antt =====
-- src/pyscripts/auth.py: a password is verified against what was hashed.
use pyscripts.Base.{
  ℕ, suc, Bool, false, Option, none, some, List, ◌∷◌, ◌++◌, ◌≡◌, refl, ◌∙◌, subst, arith,
}
use pyscripts.Base.Int.{pos}
use pyscripts.Base.Result.{ok, ◌>>=◌, or_raise}
use pyscripts.Auth.{
  Text, Library, split_once, same_text, dollar, scrypt_name, cost, block_size, parallelism,
  urlsafe_encode, split_dollar, six, hash_admin_password, digests, equal_digests,
  verify_admin_password, Parts, rejected,
}
use pyscripts.Auth.Encoding.{
  Documented, Lacks, urlsafe_encode-body, urlsafe_decode-urlsafe_encode, split_once-append,
}

split_dollar-append :
    (n : ℕ) (s t : Text)
    → Lacks dollar s
    → split_dollar (suc n) (s ++ dollar ∷ t) ≡ s ∷ split_dollar n t
unfolding split_dollar
split_dollar-append n s t h = rw (split_once-append dollar s t h, split_dollar) refl

-- what a password comes to beside a digest
abbrev pub matches : Option (List ℕ) → List ℕ → Bool
matches none digest = false
matches (some d) digest = same_text d digest

module _ (l : Library) (laws : Documented l) where
  -- the encoded password in its six parts
  encoded-six :
      (s d : Text)
      → Lacks dollar s
      → six (
          split_dollar 5 (
            scrypt_name
            ++ dollar ∷ cost
            ++ dollar ∷ block_size
            ++ dollar ∷ parallelism
            ++ dollar ∷ s
            ++ dollar ∷ d))
        ≡ some (scrypt_name, cost, block_size, parallelism, s, d)
  unfolding six split_dollar split_once
  encoded-six s d h = rw (split_once-append dollar s d h) refl

  by_scrypt :
      (o : Option (List ℕ)) (digest : List ℕ)
      → equal_digests l (or_raise o rejected >>= λ d. ok (d, digest)) ≡ matches o digest
  by_scrypt none digest = refl
  by_scrypt (some d) digest = refl

  verify_parts :
      (password : List ℕ) (encoded : Text) (parts : Parts)
      → six (split_dollar 5 encoded) ≡ some parts
      → verify_admin_password l password encoded ≡ equal_digests l (digests l password parts)
  unfolding verify_admin_password
  verify_parts password encoded parts e = rw (e, verify_admin_password) refl

  digests-encoded :
      (other salt digest : List ℕ)
      → equal_digests l (
          digests l other (
            scrypt_name,
            cost,
            block_size,
            parallelism,
            urlsafe_encode l salt,
            urlsafe_encode l digest,
          ))
        ≡ matches (l.scrypt other salt (pos 16384) (pos 8) (pos 1)) digest
  unfolding digests
  digests-encoded other salt digest =
      let (n, r, p) = laws.decimal in
      let salt_read = urlsafe_decode-urlsafe_encode l laws salt in
      let digest_read = urlsafe_decode-urlsafe_encode l laws digest in
      rw (salt_read, n, r, p, digest_read)
        (by_scrypt (l.scrypt other salt (pos 16384) (pos 8) (pos 1)) digest)

  -- Against what was hashed from a password and a salt, another password is verified if and only
  -- if `scrypt` gives it the same digest with that salt; so the password itself is. The library
  -- behaves as documented.
  pub verify_admin_password-hash_admin_password :
      (salt password other digest : List ℕ) (encoded : Text)
      → l.scrypt password salt (pos 16384) (pos 8) (pos 1) ≡ some digest
      → hash_admin_password l salt password ≡ some encoded
      → verify_admin_password l other encoded
        ≡ matches (l.scrypt other salt (pos 16384) (pos 8) (pos 1)) digest
  unfolding hash_admin_password verify_admin_password
  verify_admin_password-hash_admin_password salt password other digest encoded d h =
      let (_, lacks, _) = urlsafe_encode-body l laws salt in
      let text =
        scrypt_name
        ++ dollar ∷ cost
        ++ dollar ∷ block_size
        ++ dollar ∷ parallelism
        ++ dollar ∷ urlsafe_encode l salt
        ++ dollar ∷ urlsafe_encode l digest in
      let put_out : some text ≡ some encoded = rw (d, hash_admin_password) at h in
      let made : text ≡ encoded = ground arith in
      subst
        (λ t.
          verify_admin_password l other t
          ≡ matches (l.scrypt other salt (pos 16384) (pos 8) (pos 1)) digest)
        made
        (verify_parts other text _
            (encoded-six (urlsafe_encode l salt) (urlsafe_encode l digest) lacks)
          ∙ digests-encoded other salt digest)
