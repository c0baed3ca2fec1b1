-- ===== src/Discovery/Marathon/Request/Credentials.antt =====
-- The credentials file.
use flexds.Prelude.{◌≡◌, ◌≢◌, refl, Option, none, some, [], ◌∷◌, ◌++◌, Option-cases, inl, inr}
use flexds.Results.{Result, ok, err}
use flexds.Strings.{Text, trim_space, cut, split_n}
use flexds.Strings.Cut.{Lacks, cut-eq-some, cut-eq-none}
use flexds.Discovery.Marathon.Request.{LoadError, invalid_credentials, two_parts, credentials}

-- What the text of a credentials file means.
abbrev pub Means : {E : Type 0} → Text → Text → Result (LoadError E) (Option (Text × Text)) → Type 0
Means path creds (ok none) = ⊥
Means path creds (ok (some (user, password))) =
    (trim_space creds ≡ user ++ b':' ∷ password) × Lacks b':' user
Means path creds (err e) = Lacks b':' (trim_space creds) × (e ≡ invalid_credentials path)

split_none : (s : Text) → cut b':' s ≡ none → split_n 2 b':' s ≡ s ∷ []
unfolding split_n
split_none s h = rw (split_n, h) refl

split_some : (s a b : Text) → cut b':' s ≡ some (a, b) → split_n 2 b':' s ≡ a ∷ b ∷ []
unfolding split_n
split_some s a b h = rw (split_n, h) refl

two_parts-Means :
    (E : Type 0) (path creds : Text)
    → Means {E = E} path creds (two_parts path (split_n 2 b':' (trim_space creds)))
two_parts-Means E path creds = elim (Option-cases (cut b':' (trim_space creds))) [
  | inl n ↦ rw (split_none (trim_space creds) n) (cut-eq-none b':' (trim_space creds) n, refl)
  | inr ((user, password), f) ↦
      rw (split_some (trim_space creds) user password f)
        (cut-eq-some b':' (trim_space creds) user password f)
]

-- A credentials file that can be read gives what stands before the first colon as the user, and
-- all behind it, further colons included, as the password; without a colon the load fails.
pub credentials-Means :
    {E : Type 0} (read_file : Text → Result E Text) (path creds : Text)
    → path ≢ []
    → read_file path ≡ ok creds
    → Means {E = E} path creds (credentials read_file path)
unfolding credentials
credentials-Means read_file [] creds h k = absurd (h refl)
credentials-Means read_file (c ∷ path) creds h k = rw k (two_parts-Means _ (c ∷ path) creds)
