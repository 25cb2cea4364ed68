-- ===== src/Tests/Codec.antt =====
-- Concrete libraries: a UUID text in unary, and a signed token that holds its key and its payload.
use Prim.Native.Char.{code}
use mail_control.Base.{
  ℕ, zero, suc, ◌≡◌, String, true, false, ◌&&◌, not, Option, none, some, refl, same, same_self, ltb,
  if◌then◌else◌, ap, sym, subst, ◌==◌,
}
use mail_control.Identity.Tokens.{UuidText, Jwt, Payload, has_dot}

abbrev pub unary : ℕ → String
unary zero = String.[]
unary (suc n) = String.◌∷◌ "i" (unary n)

abbrev pub count : String → ℕ
count String.[] = 0
count (String.◌∷◌ c s) = suc (count s)

pub count-unary : (n : ℕ) → count (unary n) ≡ n
count-unary zero = refl
count-unary (suc n) = ap suc (count-unary n)

pub unary_no_dot : (n : ℕ) → has_dot (unary n) ≡ false
unary_no_dot zero = refl
unary_no_dot (suc n) = unary_no_dot n

abbrev pub uuid : UuidText
uuid = record {
  show = unary;
  parse = λ s. some (count s);
  parse-show = λ n. ap some (count-unary n);
  show_no_dot = unary_no_dot;
}

-- A field: each character after an "x", and a final dot.
abbrev put : String → String → String
put String.[] rest = String.◌∷◌ "." rest
put (String.◌∷◌ c s) rest = String.◌∷◌ "x" (String.◌∷◌ c (put s rest))

abbrev take_field : String → String × String
take_field String.[] = (String.[], String.[])
take_field (String.◌∷◌ m String.[]) = (String.[], String.[])
take_field (String.◌∷◌ m (String.◌∷◌ c s)) =
    let (f, rest) = take_field s in
    if code m == b'.' then (String.[], String.◌∷◌ c s) else (String.◌∷◌ c f, rest)

take-put : (s rest : String) → take_field (put s rest) ≡ (s, rest)
take-put String.[] String.[] = refl
take-put String.[] (String.◌∷◌ c s) = refl
take-put (String.◌∷◌ c s) rest = rw (take-put s rest)

abbrev encode : String → Payload → String
encode key p = put key (
    put p.sub (
      put p.tenant (
        put p.role_text
          (put p.kind (put p.iss (put (unary p.iat) (put (unary p.exp) (put p.jti String.[]))))))))

abbrev read : String → String × Payload
read token =
    let (key, t) = take_field token in
    let (sub, t) = take_field t in
    let (tenant, t) = take_field t in
    let (role_text, t) = take_field t in
    let (kind, t) = take_field t in
    let (iss, t) = take_field t in
    let (iat, t) = take_field t in
    let (exp, t) = take_field t in
    let (jti, t) = take_field t in
    (
      key,
      record {
        sub = sub;
        tenant = tenant;
        role_text = role_text;
        kind = kind;
        iss = iss;
        iat = count iat;
        exp = count exp;
        jti = jti;
      },
    )

abbrev accept : String → String → ℕ → String × Payload → Option Payload
accept key iss now (k, p) =
    if same k key && same p.iss iss && ltb now p.exp && not (ltb now p.iat) then some p else none

read-encode : (key : String) (p : Payload) → read (encode key p) ≡ (key, p)
read-encode key p = simp (take-put, count-unary)

pub decode-encode :
    (key : String) (p : Payload) (now : ℕ)
    → ltb now p.exp ≡ true
    → ltb now p.iat ≡ false
    → accept key p.iss now (read (encode key p)) ≡ some p
decode-encode key p now h k =
    subst (λ q. accept key p.iss now q ≡ some p) (sym (read-encode key p))
      (rw (same_self key, same_self p.iss, h, k))

abbrev pub jwt : Jwt
jwt = record {
  encode = encode;
  decode = λ key iss now token. accept key iss now (read token);
  decode-encode = decode-encode;
}
