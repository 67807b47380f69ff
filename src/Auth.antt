-- ===== src/Auth.antt =====
-- src/pyscripts/auth.py: the administrator's password and sessions. A text is its code points, and
-- a string of bytes its bytes.
pub mod Encoding
pub mod Sessions
pub mod Passwords
mod Tests
use pyscripts.Base.{
  ℕ, zero, suc, ◌+◌, ◌-◌, ◌%◌, Bool, true, false, not, ◌&&◌, ◌||◌, String, Option, none, some, List,
  [], ◌∷◌, ◌++◌, string_eq, ◌==◌, ◌=?◌, ltb, leb, length, if◌then◌else◌,
}
use pyscripts.Base.Int.{ℤ, pos, leb_ℤ}
use pyscripts.Base.Result.{Result, ok, err, ◌>>=◌, ◌>>◌, or_raise, require}
use pyscripts.Json.{
  Value, null, boolean, integer, float, text, array, object, Fields, field, end, field_of,
}

abbrev pub Text : Type 0
Text = List ℕ

-- What the code calls of Python's library, where none stands for a ValueError or a TypeError.
-- `dumps` gives the bytes of the text.
pub record Library : Type 0 where
  pub b64encode : List ℕ → Text
  pub b64decode : Text → Option (List ℕ)
  pub hmac_sha256 : (key message : List ℕ) → List ℕ
  pub scrypt : (password salt : List ℕ) (n r p : ℤ) → Option (List ℕ)
  pub dumps : Fields → List ℕ
  pub loads : List ℕ → Option Value
  pub int_of : Value → Option ℤ
  pub int_of_text : Text → Option ℤ

pub record AdminAuth : Type 0 where
  pub username : String
  pub ttl_seconds : ℕ
  pub secret : Option (List ℕ)

-- The username is the value read from the token.
pub record AdminSession : Type 0 where
  pub username : Value
  pub expires_at : ℤ
  pub credential_version : ℤ

-- None
pub data Rejected : Type 0 where
  rejected : Rejected

abbrev pub is_empty : Text → Bool
is_empty [] = true
is_empty (c ∷ t) = false

-- `t.rstrip(c)` of one character
unfoldable pub rstrip : ℕ → Text → Text
rstrip c [] = []
rstrip c (x ∷ t) = let rest = rstrip c t in if x == c && is_empty rest then [] else x ∷ rest

unfoldable pub repeat : ℕ → ℕ → Text
repeat c zero = []
repeat c (suc n) = c ∷ repeat c n

-- `t.split(c, 1)` in two, if the character occurs
unfoldable pub split_once : ℕ → Text → Option (Text × Text)
split_once c [] = none
split_once c (x ∷ t) =
    let rest = split_once c t in
    if x == c then some ([], t) else elim rest [ none ↦ none | some r ↦ some (x ∷ r.0, r.1) ]

abbrev pub same_text : Text → Text → Bool
same_text [] [] = true
same_text (a ∷ s) (b ∷ t) = a == b && same_text s t
same_text _ _ = false

abbrev pub is_ascii : Text → Bool
is_ascii [] = true
is_ascii (c ∷ t) = ltb c 128 && is_ascii t

abbrev pub equals_sign : ℕ
equals_sign = 61

abbrev pub dot : ℕ
dot = 46

-- `value[name]`
abbrev pub subscript : Value → String → Option Value
subscript (object fs) name = field_of fs name
subscript _ name = none

abbrev pub is_text_of : String → Value → Bool
is_text_of s (text t) = t =? s
is_text_of s _ = false

-- the claims of a session
unfoldable pub claims : (username : String) (issued_at expires_at credential_version : ℕ) → Fields
claims username issued_at expires_at credential_version = field "sub" (text username) (
    field "iat" (integer (pos issued_at))
      (field "exp" (integer (pos expires_at)) (field "ver" (integer (pos credential_version)) end)))

module _ (l : Library) where
  unfoldable pub urlsafe_encode : List ℕ → Text
  urlsafe_encode bytes = rstrip equals_sign (l.b64encode bytes)

  -- `-len(value) % 4` signs are added
  unfoldable pub urlsafe_decode : Text → Option (List ℕ)
  urlsafe_decode t = l.b64decode (t ++ repeat equals_sign ((4 - length t % 4) % 4))

  unfoldable pub signature_of : (secret payload : List ℕ) → Text
  signature_of secret payload = urlsafe_encode (l.hmac_sha256 secret payload)

  -- `configured`, with the secret
  unfoldable pub configured : AdminAuth → Option (List ℕ)
  configured a = elim a.secret [
    | none ↦ none
    | some s ↦ if a.username =? "admin" && leb 32 (length s) then some s else none
  ]

  -- none where the code raises a RuntimeError
  unfoldable pub issue_session : AdminAuth → (now credential_version : ℕ) → Option Text
  issue_session a now credential_version = elim (configured a) [
    | none ↦ none
    | some secret ↦
        let payload =
          urlsafe_encode
            (l.dumps (claims a.username now (now + a.ttl_seconds) credential_version)) in
        some (payload ++ dot ∷ signature_of secret payload)
  ]

  -- the session that the signed value describes
  unfoldable pub session_of : AdminAuth → (now : ℕ) → Value → Result Rejected AdminSession
  session_of a now value = do
    username ← or_raise (subscript value "sub") rejected
    expires ← or_raise (subscript value "exp") rejected
    expires_at ← or_raise (l.int_of expires) rejected
    version ← or_raise (subscript value "ver") rejected
    credential_version ← or_raise (l.int_of version) rejected
    require (is_text_of a.username username) rejected
    require (not (leb_ℤ expires_at (pos now))) rejected
    ok (record {
      username = username;
      expires_at = expires_at;
      credential_version = credential_version;
    })

  unfoldable pub verify_token :
      AdminAuth → (secret : List ℕ) (now : ℕ) → Text → Result Rejected AdminSession
  verify_token a secret now token = do
    parts ← or_raise (split_once dot token) rejected
    require (is_ascii parts.0) rejected
    require (same_text (signature_of secret parts.0) parts.1) rejected
    bytes ← or_raise (urlsafe_decode parts.0) rejected
    value ← or_raise (l.loads bytes) rejected
    session_of a now value

  -- An empty token is rejected like none.
  unfoldable pub verify_session : AdminAuth → (now : ℕ) → Option Text → Result Rejected AdminSession
  verify_session a now token = do
    secret ← or_raise (configured a) rejected
    t ← or_raise token rejected
    require (not (is_empty t)) rejected
    verify_token a secret now t

abbrev pub dollar : ℕ
dollar = 36

-- `t.split("$", n)`
unfoldable pub split_dollar : ℕ → Text → List Text
split_dollar zero t = t ∷ []
split_dollar (suc n) t = elim (split_once dollar t) [
  | none ↦ t ∷ []
  | some parts ↦ parts.0 ∷ split_dollar n parts.1
]

-- the parts of an encoded password: the algorithm, n, r, p, the salt and the digest
abbrev pub Parts : Type 0
Parts = Text × Text × Text × Text × Text × Text

unfoldable pub six : List Text → Option Parts
six (a ∷ b ∷ c ∷ d ∷ e ∷ f ∷ []) = some (a, b, c, d, e, f)
six _ = none

-- "scrypt", "16384", "8" and "1"
abbrev pub scrypt_name : Text
scrypt_name = 115 ∷ 99 ∷ 114 ∷ 121 ∷ 112 ∷ 116 ∷ []

abbrev pub cost : Text
cost = 49 ∷ 54 ∷ 51 ∷ 56 ∷ 52 ∷ []

abbrev pub block_size : Text
block_size = 56 ∷ []

abbrev pub parallelism : Text
parallelism = 49 ∷ []

module _ (l : Library) where
  -- `salt` is what `secrets.token_bytes` draws.
  unfoldable pub hash_admin_password : (salt password : List ℕ) → Option Text
  hash_admin_password salt password = elim (l.scrypt password salt (pos 16384) (pos 8) (pos 1)) [
    | none ↦ none
    | some digest ↦ some (
        scrypt_name
        ++ dollar ∷ cost
        ++ dollar ∷ block_size
        ++ dollar ∷ parallelism
        ++ dollar ∷ urlsafe_encode l salt
        ++ dollar ∷ urlsafe_encode l digest)
  ]

  -- both digests, if every part can be read
  unfoldable pub digests : (password : List ℕ) → Parts → Result Rejected (List ℕ × List ℕ)
  digests password (algorithm, n, r, p, salt, expected) = do
    require (same_text algorithm scrypt_name) rejected
    salt_bytes ← or_raise (urlsafe_decode l salt) rejected
    n_int ← or_raise (l.int_of_text n) rejected
    r_int ← or_raise (l.int_of_text r) rejected
    p_int ← or_raise (l.int_of_text p) rejected
    digest ← or_raise (l.scrypt password salt_bytes n_int r_int p_int) rejected
    expected_digest ← or_raise (urlsafe_decode l expected) rejected
    ok (digest, expected_digest)

  abbrev pub equal_digests : Result Rejected (List ℕ × List ℕ) → Bool
  equal_digests (ok (digest, expected)) = same_text digest expected
  equal_digests (err e) = false

  unfoldable pub verify_admin_password : (password : List ℕ) (encoded : Text) → Bool
  verify_admin_password password encoded = elim (six (split_dollar 5 encoded)) [
    | none ↦ false
    | some parts ↦ equal_digests (digests password parts)
  ]
