-- ===== src/Auth/Tests.antt =====
-- src/pyscripts/auth.py, over a library that behaves as documented.
use pyscripts.Base.{
  ℕ, zero, suc, ◌%◌, true, false, Option, none, some, List, [], ◌∷◌, ◌++◌, ◌≡◌, ◌≢◌, refl, sym, ap,
  arith, string_eq, ◌==◌, length, if◌then◌else◌, append-nil,
}
use pyscripts.Base.Int.{ℤ, pos, leb_ℤ}
use pyscripts.Base.Result.{ok}
use pyscripts.Json.{Value, text, integer, object, field_of}
use pyscripts.Auth.{
  Text, Library, AdminAuth, repeat, same_text, is_ascii, equals_sign, dot, dollar, cost, block_size,
  signature_of, configured, claims, issue_session, verify_session, hash_admin_password,
  verify_admin_password,
}
use pyscripts.Auth.Encoding.{Documented, Lacks}
use pyscripts.Auth.Sessions.{
  described, session_until, verify_session-issue_session, verify_session_signed,
}
use pyscripts.Auth.Passwords.{matches, verify_admin_password-hash_admin_password}

-- A byte is as many groups of four letters, and a last group.
abbrev letters : ℕ → Text → Text
letters zero t = 98 ∷ 98 ∷ 98 ∷ 98 ∷ t
letters (suc n) t = 97 ∷ 97 ∷ 97 ∷ 97 ∷ letters n t

abbrev encode : List ℕ → Text
encode [] = []
encode (n ∷ ns) = letters n (encode ns)

abbrev count_one : Option (List ℕ) → Option (List ℕ)
count_one (some (n ∷ ns)) = some (suc n ∷ ns)
count_one _ = none

abbrev start_one : Option (List ℕ) → Option (List ℕ)
start_one none = none
start_one (some ns) = some (0 ∷ ns)

abbrev decode : Text → Option (List ℕ)
decode [] = some []
decode (a ∷ b ∷ c ∷ d ∷ t) =
    let rest = decode t in if a == 97 then count_one rest else start_one rest
decode _ = none

abbrev number : Option Value → ℕ
number (some (integer (pos n))) = n
number _ = 0

abbrev int_value : Value → Option ℤ
int_value (integer n) = some n
int_value _ = none

abbrev library : Library
library = record {
  b64encode = encode;
  b64decode = decode;
  hmac_sha256 = λ k m. k ++ m;
  scrypt = λ password salt n r p. some (password ++ salt);
  dumps = λ fs.
      number (field_of fs "iat") ∷ number (field_of fs "exp") ∷ number (field_of fs "ver") ∷ [];
  loads = λ bytes. elim bytes [ i ∷ e ∷ v ∷ [] ↦ some (object (claims "admin" i e v)) | _ ↦ none ];
  int_of = int_value;
  int_of_text = λ t.
      if same_text t cost
      then some (pos 16384)
      else if same_text t block_size
      then some (pos 8)
      else some (pos 1);
}

module _ (x : ℕ) (a : 97 ≢ x) (b : 98 ≢ x) where
  letters-Lacks : (n : ℕ) (t : Text) → Lacks x t → Lacks x (letters n t)
  letters-Lacks zero t h = (b, (b, (b, (b, h))))
  letters-Lacks (suc n) t h = (a, (a, (a, (a, letters-Lacks n t h))))

  encode-Lacks : (ns : List ℕ) → Lacks x (encode ns)
  encode-Lacks [] = tt
  encode-Lacks (n ∷ ns) = letters-Lacks n (encode ns) (encode-Lacks ns)

letters-fours : (n : ℕ) (t : Text) → length t % 4 ≡ 0 → length (letters n t) % 4 ≡ 0
letters-fours zero t h = omega (arith, h)
letters-fours (suc n) t h = omega (arith, letters-fours n t h)

encode-fours : (ns : List ℕ) → length (encode ns) % 4 ≡ 0
encode-fours [] = refl
encode-fours (n ∷ ns) = letters-fours n (encode ns) (encode-fours ns)

letters-ascii : (n : ℕ) (t : Text) → is_ascii t ≡ true → is_ascii (letters n t) ≡ true
letters-ascii zero t h = h
letters-ascii (suc n) t h = letters-ascii n t h

encode-ascii : (ns : List ℕ) → is_ascii (encode ns) ≡ true
encode-ascii [] = refl
encode-ascii (n ∷ ns) = letters-ascii n (encode ns) (encode-ascii ns)

decode-letters :
    (n : ℕ) (t : Text) (ns : List ℕ) → decode t ≡ some ns → decode (letters n t) ≡ some (n ∷ ns)
decode-letters zero t ns h = ap start_one h
decode-letters (suc n) t ns h = ap count_one (decode-letters n t ns h)

decode-encode : (ns : List ℕ) → decode (encode ns) ≡ some ns
decode-encode [] = refl
decode-encode (n ∷ ns) = decode-letters n (encode ns) ns (decode-encode ns)

no_padding : (t : Text) → t ≡ t ++ repeat equals_sign 0
unfolding repeat
no_padding t = sym (append-nil t)

library-Documented : Documented library
unfolding claims field_of string_eq
library-Documented = record {
  shape = λ ns. (
    encode ns,
    0,
    no_padding (encode ns),
    omega arith,
    omega (arith, encode-fours ns),
    encode-Lacks equals_sign (omega arith) (omega arith) ns,
    encode-Lacks dot (omega arith) (omega arith) ns,
    encode-Lacks dollar (omega arith) (omega arith) ns,
    encode-ascii ns,
  );
  decodes = decode-encode;
  reads = λ i e v. (claims "admin" i e v, refl, λ name. refl);
  decimal = (refl, refl, refl);
  ints = λ n. refl;
}

-- a secret of the least length
abbrev auth : AdminAuth
unfolding repeat
auth = record { username = "admin"; ttl_seconds = 300; secret = some (repeat 7 32) }

abbrev token : Text
token = elim (issue_session library auth 1000 2) [ none ↦ [] | some t ↦ t ]

issued : issue_session library auth 1000 2 ≡ some token
unfolding issue_session configured string_eq repeat
issued = refl

verify_session-issue_session_example :
    verify_session library auth 1299 (some token) ≡ described auth 1000 2 1299
verify_session-issue_session_example =
    verify_session-issue_session library library-Documented auth 1000 2 1299 token issued

verified : verify_session library auth 1299 (some token) ≡ ok (session_until auth 1300 2)
unfolding auth
verified = verify_session-issue_session_example

verify_session_signed_example :
    ((secret : List ℕ) × (payload : Text) × (configured library auth ≡ some secret)
      × (token ≡ payload ++ dot ∷ signature_of library secret payload))
    × (text auth.username ≡ text auth.username)
    × (leb_ℤ (pos 1300) (pos 1299) ≡ false)
verify_session_signed_example =
    verify_session_signed library auth 1299 token (session_until auth 1300 2) verified

abbrev encoded : Text
encoded = elim (hash_admin_password library (5 ∷ []) (9 ∷ [])) [ none ↦ [] | some t ↦ t ]

hashed : hash_admin_password library (5 ∷ []) (9 ∷ []) ≡ some encoded
unfolding hash_admin_password
hashed = refl

verify_admin_password-hash_admin_password_example :
    verify_admin_password library (8 ∷ []) encoded ≡ matches (some (8 ∷ 5 ∷ [])) (9 ∷ 5 ∷ [])
verify_admin_password-hash_admin_password_example =
    verify_admin_password-hash_admin_password library library-Documented (5 ∷ []) (9 ∷ []) (8 ∷ [])
      (9 ∷ 5 ∷ []) encoded refl hashed
