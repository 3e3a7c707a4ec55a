-- ===== src/Pool/Auth/Credentials.antt =====
-- The credentials that a server reads from the header.
use victoriametrics_importer.Prelude.{
  ℕ, ◌≡◌, ◌≢◌, refl, ap, ◌∙◌, false, Option, none, some, [], ◌∷◌, ◌++◌, ◌⊎◌, inl, inr, length, drop,
  ◌==◌, if◌then◌else◌, arith,
}
use victoriametrics_importer.Prelude.Sets.{has}
use victoriametrics_importer.Prelude.Ascii.{has_prefix}
use victoriametrics_importer.Pool.Auth.Base64.{encode, decode, AllBytes, decode-encode}
use victoriametrics_importer.Pool.Auth.{
  Bytes, basic, colon, Surroundings, load_password_spec, authorization_for, build_html_basic_auth,
}

-- The user and the password of a text: what is before its first colon, and behind it.
abbrev pub user_and : ℕ → Option (Bytes × Bytes) → Option (Bytes × Bytes)
user_and c none = none
user_and c (some (user, password)) = some (c ∷ user, password)

abbrev pub split_credentials : Bytes → Option (Bytes × Bytes)
split_credentials [] = none
split_credentials (c ∷ cs) =
    let rest = split_credentials cs in if c == colon then some ([], cs) else user_and c rest

-- A server that knows basic authorization.
abbrev pub read_basic : Bytes → Option (Bytes × Bytes)
read_basic authorization =
    if has_prefix authorization basic
    then split_credentials (decode (drop (length basic) authorization))
    else none

split_credentials-colon :
    (user password : Bytes)
    → has colon user ≡ false
    → split_credentials (user ++ colon ∷ password) ≡ some (user, password)
split_credentials-colon [] password h = refl
split_credentials-colon (c ∷ user) password h =
    let rest = split_credentials-colon user password (ground (arith, h)) in
    let differs : (c == colon) ≡ false = ground (arith, h) in rw differs (ap (user_and c) rest)

AllBytes-append : (xs ys : Bytes) → AllBytes xs → AllBytes ys → AllBytes (xs ++ ys)
AllBytes-append [] ys h k = k
AllBytes-append (x ∷ xs) ys h k = (h.0, AllBytes-append xs ys h.1 k)

read_basic-encoded :
    (bs : Bytes) → AllBytes bs → read_basic (basic ++ encode bs) ≡ split_credentials bs
read_basic-encoded bs h = ap split_credentials (decode-encode bs h)

-- What a header comes to: no header without a user name, the error of a password that cannot be
-- loaded, or a header from which a server reads the user name and the password that was loaded.
pub data IsAuth (o : Surroundings) (username password : Bytes) : ℕ ⊎ Bytes → Type 0 where
  no_user : username ≡ [] → IsAuth o username password (inr [])
  fails :
      (e : ℕ)
      → username ≢ []
      → load_password_spec o password ≡ inl e
      → IsAuth o username password (inl e)
  grants :
      (loaded authorization : Bytes)
      → load_password_spec o password ≡ inr loaded
      → read_basic authorization ≡ some (username, loaded)
      → IsAuth o username password (inr authorization)

by_loaded :
    (o : Surroundings) (c : ℕ) (cs password : Bytes) (r : ℕ ⊎ Bytes)
    → load_password_spec o password ≡ r
    → has colon (c ∷ cs) ≡ false
    → AllBytes (c ∷ cs)
    → ((loaded : Bytes) → load_password_spec o password ≡ inr loaded → AllBytes loaded)
    → IsAuth o (c ∷ cs) password (authorization_for (c ∷ cs) r)
unfolding authorization_for
by_loaded o c cs password (inl e) l h u p = fails e (λ x. cc x) l
by_loaded o c cs password (inr loaded) l h u p =
    grants loaded (basic ++ encode ((c ∷ cs) ++ colon ∷ loaded)) l (
      read_basic-encoded ((c ∷ cs) ++ colon ∷ loaded)
        (AllBytes-append (c ∷ cs) (colon ∷ loaded) u (omega arith, p loaded l))
      ∙ split_credentials-colon (c ∷ cs) loaded h)

-- For a user name without a colon: BuildHtmlBasicAuth gives no header if it is empty, the error of the
-- password if it cannot be loaded, and else a header from which a server reads the user name and the
-- password, whose characters are bytes.
pub build_html_basic_auth-IsAuth :
    (o : Surroundings) (username password : Bytes)
    → has colon username ≡ false
    → AllBytes username
    → ((loaded : Bytes) → load_password_spec o password ≡ inr loaded → AllBytes loaded)
    → IsAuth o username password (build_html_basic_auth o username password)
unfolding build_html_basic_auth
build_html_basic_auth-IsAuth o [] password h u p = no_user refl
build_html_basic_auth-IsAuth o (c ∷ cs) password h u p =
    by_loaded o c cs password (load_password_spec o password) refl h u p
