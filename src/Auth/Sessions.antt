-- ===== src/Auth/Sessions.antt =====
-- src/pyscripts/auth.py: a session that was issued is verified until it expires, and no other token is.
use pyscripts.Base.{
  ℕ, ◌+◌, Bool, true, false, Option-cases, inl, inr, not, ◌&&◌, String, none, some, List, [], ◌∷◌,
  ◌++◌, ◌≡◌, refl, sym, ap, ◌∙◌, subst, arith, string_eq, ◌=?◌, test_refl, leb, length,
  if◌then◌else◌,
}
use pyscripts.Base.Int.{pos, leb_ℤ}
use pyscripts.Base.Result.{
  Result, ok, err, ◌>>◌, or_raise, or_raise-eq-ok, require, require-eq-ok, >>=-eq-ok,
}
use pyscripts.Json.{Value, null, boolean, integer, float, text, array, object, Fields, field_of}
use pyscripts.Auth.{
  Text, Library, AdminAuth, AdminSession, Rejected, rejected, is_empty, split_once, same_text,
  is_ascii, dot, urlsafe_encode, urlsafe_decode, signature_of, configured, claims, issue_session,
  session_of, verify_token, verify_session, subscript, is_text_of,
}
use pyscripts.Auth.Encoding.{
  Documented, Lacks, urlsafe_encode-body, urlsafe_decode-urlsafe_encode, split_once-append,
  append-split_once, same_text_refl, same_text_eq,
}

module _ (a : AdminAuth) where
  abbrev pub session_until : (expires credential_version : ℕ) → AdminSession
  session_until n version = record {
    username = text a.username;
    expires_at = pos n;
    credential_version = pos version;
  }

  -- what a token stands for at an instant
  abbrev pub described : (now credential_version t : ℕ) → Result Rejected AdminSession
  described now version t =
      if leb (now + a.ttl_seconds) t
      then err rejected
      else ok (session_until (now + a.ttl_seconds) version)

module _ (l : Library) (laws : Documented l) (a : AdminAuth) where
  abbrev timely : (n version t : ℕ) → Result Rejected AdminSession
  timely n version t = do
    require (not (leb_ℤ (pos n) (pos t))) rejected
    ok (session_until a n version)

  by_time :
      (n version t : ℕ)
      → timely n version t ≡ (if leb n t then err rejected else ok (session_until a n version))
  by_time n version t = ground arith

  session_of-claims :
      (now version t : ℕ) (gs : Fields)
      → ((name : String)
          → field_of gs name ≡ field_of (claims a.username now (now + a.ttl_seconds) version) name)
      → session_of l a t (object gs) ≡ described a now version t
  unfolding session_of claims field_of string_eq
  session_of-claims now version t gs same =
      let sub : field_of gs "sub" ≡ some (text a.username) = same "sub" in
      let exp : field_of gs "exp" ≡ some (integer (pos (now + a.ttl_seconds))) = same "exp" in
      let ver : field_of gs "ver" ≡ some (integer (pos version)) = same "ver" in
      let name = test_refl a.username in
      let exp_int = laws.ints (pos (now + a.ttl_seconds)) in
      let ver_int = laws.ints (pos version) in
      rw (sub, exp, exp_int, ver, ver_int, name) (by_time (now + a.ttl_seconds) version t)

  nonempty : (s t : Text) → is_empty (s ++ dot ∷ t) ≡ false
  nonempty [] t = refl
  nonempty (c ∷ s) t = refl

  configured-admin : (secret : List ℕ) → configured l a ≡ some secret → a.username ≡ "admin"
  unfolding configured
  configured-admin secret h = elim (Option-cases a.secret) [
    | inl e ↦ cc (sym (rw e at h))
    | inr (s, e) ↦
        let g : (if a.username =? "admin" && leb 32 (length s) then some s else none)
            ≡ some secret =
          rw e at h in
        ground (arith, g)
  ]

  verify_token-issued :
      (admin : a.username ≡ "admin") (secret : List ℕ) (now version t : ℕ) (payload : Text)
      → payload ≡ urlsafe_encode l (l.dumps (claims a.username now (now + a.ttl_seconds) version))
      → verify_token l a secret t (payload ++ dot ∷ signature_of l secret payload)
        ≡ described a now version t
  unfolding verify_token
  verify_token-issued admin secret now version t payload e =
      let (no_dot, _, ascii) =
        urlsafe_encode-body l laws
          (l.dumps (claims a.username now (now + a.ttl_seconds) version)) in
      let split =
        split_once-append dot payload (signature_of l secret payload)
          (subst (Lacks dot) (sym e) no_dot) in
      let is_a : is_ascii payload ≡ true = ap is_ascii e ∙ ascii in
      let signed = same_text_refl (signature_of l secret payload) in
      let bytes = ap (urlsafe_decode l) e ∙ urlsafe_decode-urlsafe_encode l laws _ in
      let (gs, read, same) =
        subst
          (λ u.
            (gs : Fields) × (l.loads (l.dumps (claims u now (now + a.ttl_seconds) version))
              ≡ some (object gs))
            × ((name : String)
                → field_of gs name ≡ field_of (claims u now (now + a.ttl_seconds) version) name))
          (sym admin) (laws.reads now (now + a.ttl_seconds) version) in
      rw (split, is_a, signed, bytes, read) (session_of-claims now version t gs same)

  -- A session that was issued, by a configured secret, is verified: before it expires as the
  -- administrator's, with the instant of its expiry and the version of the credential, and from
  -- then on it is rejected. The library behaves as documented.
  pub verify_session-issue_session :
      (now version t : ℕ) (token : Text)
      → issue_session l a now version ≡ some token
      → verify_session l a t (some token) ≡ described a now version t
  unfolding verify_session issue_session
  verify_session-issue_session now version t token h = elim (Option-cases (configured l a)) [
    | inl e ↦ cc
    | inr (secret, e) ↦
        let payload =
          urlsafe_encode l (l.dumps (claims a.username now (now + a.ttl_seconds) version)) in
        let sent = payload ++ dot ∷ signature_of l secret payload in
        let put_out : some sent ≡ some token = rw (e, issue_session) at h in
        let made : sent ≡ token = ground arith in
        let begun : is_empty sent ≡ false = nonempty payload (signature_of l secret payload) in
        subst (λ u. verify_session l a t (some u) ≡ described a now version t) made
          (rw (e, begun)
            (verify_token-issued (configured-admin secret e) secret now version t payload refl))
  ]

ok-eq : (r : Result Rejected AdminSession) (x y : AdminSession) → r ≡ ok x → r ≡ ok y → x ≡ y
ok-eq r x y hx hy = ground (arith, hx, hy)

not-true : (b : Bool) → not b ≡ true → b ≡ false
not-true b h = ground (arith, h)

is_text_of-true : (n : String) (v : Value) → is_text_of n v ≡ true → v ≡ text n
is_text_of-true n (text t) h = ground arith
is_text_of-true n null h = cc
is_text_of-true n (boolean b) h = cc
is_text_of-true n (integer z) h = cc
is_text_of-true n (float b e m) h = cc
is_text_of-true n (array xs) h = cc
is_text_of-true n (object fs) h = cc

-- The session that a value describes has the administrator's name and has not expired.
session_of-timely :
    (l : Library) (a : AdminAuth) (t : ℕ) (value : Value) (s : AdminSession)
    → session_of l a t value ≡ ok s
    → (s.username ≡ text a.username) × (leb_ℤ s.expires_at (pos t) ≡ false)
unfolding session_of
session_of-timely l a t value s h =
    let (name, _, h1) = >>=-eq-ok (or_raise (subscript value "sub") rejected) _ h in
    let (exp, _, h2) = >>=-eq-ok (or_raise (subscript value "exp") rejected) _ h1 in
    let (expires, _, h3) = >>=-eq-ok (or_raise (l.int_of exp) rejected) _ h2 in
    let (ver, _, h4) = >>=-eq-ok (or_raise (subscript value "ver") rejected) _ h3 in
    let (version, _, h5) = >>=-eq-ok (or_raise (l.int_of ver) rejected) _ h4 in
    let (_, own, h6) = >>=-eq-ok (require (is_text_of a.username name) rejected) _ h5 in
    let (_, lasts, h7) = >>=-eq-ok (require (not (leb_ℤ expires (pos t))) rejected) _ h6 in
    let made : AdminSession = record {
      username = name;
      expires_at = expires;
      credential_version = version;
    } in
    let same = ok-eq (ok made) made s refl h7 in
    (
      ap AdminSession.username (sym same) ∙ is_text_of-true a.username name (require-eq-ok _ _ own),
      subst (λ u. leb_ℤ (AdminSession.expires_at u) (pos t) ≡ false) same
          (not-true _ (require-eq-ok _ _ lasts)),
    )

-- A token that is verified was signed with the configured secret, and its session, which bears
-- the name read from the token, bears the administrator's name and has not expired.
pub verify_session_signed :
    (l : Library) (a : AdminAuth) (t : ℕ) (token : Text) (s : AdminSession)
    → verify_session l a t (some token) ≡ ok s
    → ((secret : List ℕ) × (payload : Text) × (configured l a ≡ some secret)
        × (token ≡ payload ++ dot ∷ signature_of l secret payload))
      × (s.username ≡ text a.username)
      × (leb_ℤ s.expires_at (pos t) ≡ false)
unfolding verify_session verify_token
verify_session_signed l a t token s h =
    let (secret, e, h1) = >>=-eq-ok (or_raise (configured l a) rejected) _ h in
    let (_, _, h2) = >>=-eq-ok (require (not (is_empty token)) rejected) _ h1 in
    let (parts, split, h3) = >>=-eq-ok (or_raise (split_once dot token) rejected) _ h2 in
    let (_, _, h4) = >>=-eq-ok (require (is_ascii parts.0) rejected) _ h3 in
    let (_, signed, h5) =
      >>=-eq-ok (require (same_text (signature_of l secret parts.0) parts.1) rejected) _ h4 in
    let (bytes, _, h6) = >>=-eq-ok (or_raise (urlsafe_decode l parts.0) rejected) _ h5 in
    let (value, _, h7) = >>=-eq-ok (or_raise (l.loads bytes) rejected) _ h6 in
    let (who, fresh) = session_of-timely l a t value s h7 in
    let signature =
      same_text_eq (signature_of l secret parts.0) parts.1 (require-eq-ok _ _ signed) in
    (
      (
        secret,
        parts.0,
        or_raise-eq-ok _ _ e,
        append-split_once dot token parts (or_raise-eq-ok _ _ split)
            ∙ ap (λ q. parts.0 ++ dot ∷ q) (sym signature),
      ),
      who,
      fresh,
    )
