-- ===== src/Auth/Encoding.antt =====
-- src/pyscripts/auth.py: `_urlsafe_encode` and `_urlsafe_decode`, over what base64 promises.
use pyscripts.Base.{
  Bool-cases, Option-cases, inl, inr, ℕ, zero, suc, ◌+◌, ◌-◌, ◌%◌, ◌≤◌, true, String, some, List,
  [], ◌∷◌, ◌++◌, ◌≡◌, ◌≢◌, refl, sym, ap, ◌∙◌, subst, arith, string_eq, ◌==◌, length,
}
use pyscripts.Base.Int.{ℤ, pos}
use pyscripts.Json.{integer, object, Fields, field_of}
use pyscripts.Auth.{
  Text, Library, rstrip, repeat, split_once, same_text, is_ascii, equals_sign, dot, dollar, cost,
  block_size, parallelism, urlsafe_encode, urlsafe_decode, claims,
}

-- The character does not occur.
abbrev pub Lacks : ℕ → Text → Type 0
Lacks c [] = Unit
Lacks c (x ∷ t) = (x ≢ c) × Lacks c t

-- Documented behaviour of the library: a base64 text is a body over the url-safe alphabet and at
-- most two signs that fill it up to a multiple of four, and it decodes to what was encoded; the
-- claims that were written as JSON are read as a dict with the same entries; `int` of an int is that
-- int, and of decimal digits the number.
pub record Documented (l : Library) : Type 0 where
  pub shape :
      (bytes : List ℕ)
      → (body : Text) × (pad : ℕ) × (l.b64encode bytes ≡ body ++ repeat equals_sign pad)
        × (pad ≤ 2)
        × ((length body + pad) % 4 ≡ 0)
        × Lacks equals_sign body
        × Lacks dot body
        × Lacks dollar body
        × (is_ascii body ≡ true)
  pub decodes : (bytes : List ℕ) → l.b64decode (l.b64encode bytes) ≡ some bytes
  pub reads :
      (now expires version : ℕ)
      → (gs : Fields) × (l.loads (l.dumps (claims "admin" now expires version)) ≡ some (object gs))
        × ((name : String) → field_of gs name ≡ field_of (claims "admin" now expires version) name)
  pub decimal :
      (l.int_of_text cost ≡ some (pos 16384))
      × (l.int_of_text block_size ≡ some (pos 8))
      × (l.int_of_text parallelism ≡ some (pos 1))
  pub ints : (n : ℤ) → l.int_of (integer n) ≡ some n

rstrip-repeat : (c n : ℕ) → rstrip c (repeat c n) ≡ []
unfolding rstrip repeat
rstrip-repeat c zero = refl
rstrip-repeat c (suc n) = ground (arith, rstrip-repeat c n)

-- Stripping takes the padding away, and no more.
rstrip-padded : (c n : ℕ) (body : Text) → Lacks c body → rstrip c (body ++ repeat c n) ≡ body
unfolding rstrip
rstrip-padded c n [] h = rstrip-repeat c n
rstrip-padded c n (x ∷ t) h = ground (arith, rstrip-padded c n t h.1)

padding : (n pad : ℕ) → pad ≤ 2 → (n + pad) % 4 ≡ 0 → (4 - n % 4) % 4 ≡ pad
padding n pad le fills = omega (arith, le, fills)

module _ (l : Library) (laws : Documented l) where
  -- The encoding is the body of the base64 text.
  pub urlsafe_encode-body :
      (bytes : List ℕ)
      → (Lacks dot (urlsafe_encode l bytes))
        × (Lacks dollar (urlsafe_encode l bytes))
        × (is_ascii (urlsafe_encode l bytes) ≡ true)
  unfolding urlsafe_encode
  urlsafe_encode-body bytes =
      let (body, pad, e, _, _, lacks, no_dot, no_dollar, ascii) = laws.shape bytes in
      let stripped : rstrip equals_sign (l.b64encode bytes) ≡ body =
        ap (rstrip equals_sign) e ∙ rstrip-padded equals_sign pad body lacks in
      (
        subst (Lacks dot) (sym stripped) no_dot,
        subst (Lacks dollar) (sym stripped) no_dollar,
        ap is_ascii stripped ∙ ascii,
      )

  pub urlsafe_decode-urlsafe_encode :
      (bytes : List ℕ) → urlsafe_decode l (urlsafe_encode l bytes) ≡ some bytes
  unfolding urlsafe_encode urlsafe_decode
  urlsafe_decode-urlsafe_encode bytes =
      let (body, pad, e, le, fills, lacks, _, _, _) = laws.shape bytes in
      let stripped : rstrip equals_sign (l.b64encode bytes) ≡ body =
        ap (rstrip equals_sign) e ∙ rstrip-padded equals_sign pad body lacks in
      ap (λ t. l.b64decode (t ++ repeat equals_sign ((4 - length t % 4) % 4))) stripped
      ∙ ap (λ n. l.b64decode (body ++ repeat equals_sign n)) (padding (length body) pad le fills)
      ∙ ap l.b64decode (sym e)
      ∙ laws.decodes bytes

-- A text without the character is the first part of a split.
pub split_once-append : (c : ℕ) (s t : Text) → Lacks c s → split_once c (s ++ c ∷ t) ≡ some (s, t)
unfolding split_once
split_once-append c [] t h = ground arith
split_once-append c (x ∷ s) t h = ground (arith, split_once-append c s t h.1)

-- What a split gives is put together again.
pub append-split_once :
    (c : ℕ) (t : Text) (parts : Text × Text)
    → split_once c t ≡ some parts
    → t ≡ parts.0 ++ c ∷ parts.1
unfolding split_once
append-split_once c [] parts h = cc
append-split_once c (x ∷ t) parts h = elim (Bool-cases (x == c)) [
  | inl same ↦ ground (arith, h)
  | inr other ↦ elim (Option-cases (split_once c t)) [
    | inl e ↦ ground (arith, h)
    | inr (r, e) ↦
        let found : some (x ∷ r.0, r.1) ≡ some parts = rw (other, e) at h in
        let here : (x ∷ r.0, r.1) ≡ parts = ground arith in
        ap (λ rest. x ∷ rest) (append-split_once c t r e) ∙ ap (λ q. q.0 ++ c ∷ q.1) here
  ]
]

pub same_text_refl : (t : Text) → same_text t t ≡ true
same_text_refl [] = refl
same_text_refl (c ∷ t) = ground (arith, same_text_refl t)

pub same_text_eq : (s t : Text) → same_text s t ≡ true → s ≡ t
same_text_eq [] [] h = refl
same_text_eq [] (c ∷ t) h = cc
same_text_eq (c ∷ s) [] h = cc
same_text_eq (c ∷ s) (d ∷ t) h = ground (arith, same_text_eq s t)
