-- ===== src/Pool/Auth.antt =====
-- LoadPasswordSpec and BuildHtmlBasicAuth of vmi/internal/http_endpoint_pool.go. Texts are ASCII bytes;
-- the environment and the files come as functions, and os.ExpandEnv too.
pub mod Base64
pub mod Credentials
mod Tests
use victoriametrics_importer.Prelude.{
  ℕ, Bool, true, false, List, [], ◌∷◌, ◌++◌, ◌⊎◌, inl, inr, length, drop, if◌then◌else◌,
}
use victoriametrics_importer.Prelude.Ascii.{trim_space, has_prefix}
use victoriametrics_importer.Pool.Auth.Base64.{encode}

abbrev pub Bytes : Type 0
Bytes = List ℕ

-- "file:", "env:" and "pass:"
abbrev pub file_prefix : Bytes
file_prefix = 102 ∷ 105 ∷ 108 ∷ 101 ∷ 58 ∷ []

abbrev pub env_prefix : Bytes
env_prefix = 101 ∷ 110 ∷ 118 ∷ 58 ∷ []

abbrev pub pass_prefix : Bytes
pass_prefix = 112 ∷ 97 ∷ 115 ∷ 115 ∷ 58 ∷ []

-- "Basic "
abbrev pub basic : Bytes
basic = 66 ∷ 97 ∷ 115 ∷ 105 ∷ 99 ∷ 32 ∷ []

abbrev pub colon : ℕ
colon = 58

-- os.ExpandEnv, os.ReadFile with its error or the content, and os.Getenv.
pub record Surroundings : Type 0 where
  pub expand_env : Bytes → Bytes
  pub read_file : Bytes → ℕ ⊎ Bytes
  pub getenv : Bytes → Bytes

content_of : ℕ ⊎ Bytes → ℕ ⊎ Bytes
content_of (inl e) = inl e
content_of (inr content) = inr (trim_space content)

pub load_password_spec : Surroundings → (password : Bytes) → ℕ ⊎ Bytes
unfolding content_of
load_password_spec o password =
    if has_prefix password file_prefix
    then content_of (o.read_file (o.expand_env (drop (length file_prefix) password)))
    else if has_prefix password env_prefix
    then inr (o.getenv (drop (length env_prefix) password))
    else if has_prefix password pass_prefix
    then inr (drop (length pass_prefix) password)
    else inr password

authorization_for : (username : Bytes) → ℕ ⊎ Bytes → ℕ ⊎ Bytes
authorization_for username (inl e) = inl e
authorization_for username (inr password) = inr (basic ++ encode (username ++ colon ∷ password))

pub build_html_basic_auth : Surroundings → (username password : Bytes) → ℕ ⊎ Bytes
unfolding authorization_for
build_html_basic_auth o [] password = inr []
build_html_basic_auth o (c ∷ cs) password =
    authorization_for (c ∷ cs) (load_password_spec o password)
