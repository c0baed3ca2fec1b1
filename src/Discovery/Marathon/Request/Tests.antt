-- ===== src/Discovery/Marathon/Request/Tests.antt =====
-- A credentials file whose password holds a colon.
use flexds.Prelude.{◌≡◌, refl, some}
use flexds.Results.{Result, ok}
use flexds.Strings.{Text, codes}
use flexds.Discovery.Marathon.Request.{credentials}
use flexds.Discovery.Marathon.Request.Credentials.{Means, credentials-Means}

abbrev creds : Text
creds = codes " admin:a:b "

read_creds : Text → Result Text Text
read_creds path = ok creds

reads_creds : credentials read_creds (codes "/creds") ≡ ok (some (codes "admin", codes "a:b"))
unfolding credentials read_creds
reads_creds = refl

credentials-Means_example : Means (codes "/creds") creds (credentials read_creds (codes "/creds"))
unfolding read_creds
credentials-Means_example = credentials-Means read_creds (codes "/creds") creds (λ e. cc) refl
