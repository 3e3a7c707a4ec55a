-- ===== src/Pool/Auth/Tests.antt =====
-- The header of a user whose password stands in a file.
use victoriametrics_importer.Prelude.{ℕ, ◌≡◌, refl, subst, [], ◌∷◌, ◌⊎◌, inl, inr, arith}
use victoriametrics_importer.Pool.Auth.{
  Bytes, Surroundings, load_password_spec, build_html_basic_auth, authorization_for, content_of,
}
use victoriametrics_importer.Pool.Auth.Base64.{encode, digit, AllBytes}
use victoriametrics_importer.Pool.Auth.Credentials.{IsAuth, build_html_basic_auth-IsAuth}

-- A file with the password "pw" and a line end.
abbrev surroundings : Surroundings
surroundings = record {
  expand_env = λ name. name;
  read_file = λ name. inr (112 ∷ 119 ∷ 10 ∷ []);
  getenv = λ name. [];
}

-- "user" and "file:pw"
abbrev user : Bytes
user = 117 ∷ 115 ∷ 101 ∷ 114 ∷ []

abbrev in_file : Bytes
in_file = 102 ∷ 105 ∷ 108 ∷ 101 ∷ 58 ∷ 112 ∷ 119 ∷ []

-- "Basic dXNlcjpwdw=="
the_header :
    build_html_basic_auth surroundings user in_file
    ≡ inr (
        66 ∷ 97 ∷ 115 ∷ 105 ∷ 99 ∷ 32 ∷ 100 ∷ 88 ∷ 78 ∷ 108 ∷ 99 ∷ 106 ∷ 112 ∷ 119 ∷ 100 ∷ 119 ∷ 61
        ∷ 61 ∷ [])
unfolding build_html_basic_auth load_password_spec authorization_for content_of encode digit
the_header = refl

in_file-loaded :
    (loaded : Bytes) → load_password_spec surroundings in_file ≡ inr loaded → AllBytes loaded
unfolding load_password_spec content_of
in_file-loaded loaded e = subst AllBytes_of e (omega arith, (omega arith, tt))
  where
    AllBytes_of : ℕ ⊎ Bytes → Type 0
    AllBytes_of (inl e) = Unit {0}
    AllBytes_of (inr bytes) = AllBytes bytes

build_html_basic_auth-IsAuth_example :
    IsAuth surroundings user in_file (build_html_basic_auth surroundings user in_file)
build_html_basic_auth-IsAuth_example =
    build_html_basic_auth-IsAuth surroundings user in_file refl
      (omega arith, (omega arith, (omega arith, (omega arith, tt)))) in_file-loaded
