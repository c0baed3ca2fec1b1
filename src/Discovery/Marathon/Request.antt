-- ===== src/Discovery/Marathon/Request.antt =====
-- internal/discovery/marathon/marathon_loader.go: the request of one load, up to the apps.
pub mod Credentials
mod Tests
use flexds.Prelude.{
  ℕ, Bool, true, false, Option, none, some, List, [], ◌∷◌, ◌++◌, eqb, if◌then◌else◌,
}
use flexds.Results.{Result, ok, err, ◌>>=◌}
use flexds.Strings.{Text, codes, is_empty, trim_space, split_n}
use flexds.Discovery.Marathon.{App}

-- The request: its URL, and user name and password of SetBasicAuth.
pub record Request : Type 0 where
  pub url : Text
  pub basic_auth : Option (Text × Text)

-- The status code, and what io.ReadAll reads of the body.
pub record Response (E : Type 0) : Type 0 where
  pub status_code : ℕ
  pub body : Result E Text

-- The errors, in the order of the tests, with the errors that they wrap.
pub data LoadError (E : Type 0) : Type 0 where
  no_request : E → LoadError E
  no_credentials : E → LoadError E
  invalid_credentials : Text → LoadError E
  no_response : E → LoadError E
  bad_status : ℕ → LoadError E
  no_body : E → LoadError E
  no_apps : E → LoadError E

-- What a load calls: http.NewRequest (its error), os.ReadFile, Client.Do and json.Unmarshal.
pub record Outside (E : Type 0) : Type 0 where
  pub new_request : Text → Option E
  pub read_file : Text → Result E Text
  pub send : Request → Result E (Response E)
  pub unmarshal : Text → Result E (List App)

-- URL and CredentialsFilePath; `Interval` only spaces the rounds.
pub record Config : Type 0 where
  pub url : Text
  pub credentials_file_path : Text

abbrev pub apps_url : Config → Text
apps_url config = config.url ++ codes "/v2/apps?embed=apps.tasks"

module _ {E : Type 0} where
  -- `fmt.Errorf` around an error
  abbrev wrap : {A : Type 0} → (E → LoadError E) → Result E A → Result (LoadError E) A
  wrap f (ok a) = ok a
  wrap f (err e) = err (f e)

  abbrev check_request : Option E → Result {0, 0} (LoadError E) Unit
  check_request none = ok tt
  check_request (some e) = err (no_request e)

  abbrev two_parts : Text → List Text → Result (LoadError E) (Option (Text × Text))
  two_parts path (user ∷ password ∷ []) = ok (some (user, password))
  two_parts path _ = err (invalid_credentials path)

  unfoldable pub credentials :
      (Text → Result E Text) → Text → Result (LoadError E) (Option (Text × Text))
  unfolding trim_space split_n
  credentials read_file path =
      if is_empty path
      then ok none
      else (wrap no_credentials (read_file path) >>= λ creds.
          two_parts path (split_n 2 b':' (trim_space creds)))

  abbrev check_status : Response E → Result {0, 0} (LoadError E) Unit
  check_status response =
      if eqb response.status_code 200 then ok tt else err (bad_status response.status_code)

  -- The first part of loadConfig, up to the apps.
  unfoldable pub fetch : Outside E → Config → Result (LoadError E) (List App)
  unfolding credentials
  fetch out config = do
    _ ← check_request (out.new_request (apps_url config))
    auth ← credentials out.read_file config.credentials_file_path
    response ← wrap no_response (out.send (record { url = apps_url config; basic_auth = auth }))
    _ ← check_status response
    body ← wrap no_body response.body
    wrap no_apps (out.unmarshal body)
