-- ===== src/ReleaseAdmission/Pages.antt =====
-- `paginated` of release-admission-v2.py: the pages of a list of the provider.
pub mod Complete
pub mod Distinct
use aros_toolchains.Prelude.{
  ℕ, zero, suc, ◌+◌, String, Bool, true, false, not, if◌then◌else◌, List, [], ◌∷◌, ◌++◌, Option,
  none, some, Result, ok, admission_error, require, refuse, fold, ◌<>◌, ◌==◌, string_eq, nat_eq,
  contains, ltb, length,
}
use aros_toolchains.Prelude as P
use aros_toolchains.Json.{Value, get, as_list, or_raise}
use aros_toolchains.Text.{any_char}
use aros_toolchains.Text.Bytes.{decimal}
use aros_toolchains.ReleaseAdmission.Checks.{
  Object, page_size, max_pages, positive_number, required_object,
}
use aros_toolchains.ReleaseAdmission.Session.{Session, ◌>>=◌, ◌>>◌, pure, lift, fail, api}

-- The variables of the loop.
pub record Rows : Type 0 where
  pub rows : List Object
  pub identities : List ℕ

-- The identity of an item, which no earlier item has.
unfoldable pub identify : String → String → Object → List ℕ → Result (List ℕ)
identify endpoint field item identities =
    P.◌>>=◌
      (or_raise (positive_number (get item field))
        (admission_error ("GitHub GET identity is invalid for " <> endpoint)))
      (λ identity.
        P.◌>>◌
          (refuse (contains identities identity)
            (admission_error ("GitHub GET returned a duplicate identity for " <> endpoint)))
          (ok (identities ++ identity ∷ [])))

abbrev pub identities_with : String → Option String → Object → List ℕ → Result (List ℕ)
identities_with endpoint none item identities = ok identities
identities_with endpoint (some field) item identities = identify endpoint field item identities

-- One item of a page.
unfoldable pub add_item : String → Option String → Rows → Value → Result Rows
unfolding required_object identify
add_item endpoint identity_field s value =
    P.◌>>=◌ (required_object value (endpoint <> " item")) (λ item.
      P.◌>>=◌ (identities_with endpoint identity_field item s.identities)
        (λ identities. ok (record { rows = s.rows ++ item ∷ []; identities = identities })))

-- The list in an answer, the answer itself or a field of it.
unfoldable pub page_list : String → Option String → Value → Result Value
unfolding required_object
page_list endpoint none response = ok response
page_list endpoint (some field) response =
    P.◌>>=◌ (required_object response (endpoint <> " page")) (λ body. ok (get body field))

unfoldable pub page_values : String → Option String → Value → Result (List Value)
unfolding page_list
page_values endpoint array_field response =
    P.◌>>=◌ (page_list endpoint array_field response) (λ values.
      or_raise (as_list values)
        (admission_error ("GitHub GET list shape is invalid for " <> endpoint)))

abbrev pub separator : String → String
separator endpoint = if any_char (λ c. c == b'?') endpoint then "&" else "?"

unfoldable pub page_path : String → ℕ → String
unfolding decimal
page_path endpoint page =
    endpoint <> separator endpoint <> "per_page=" <> decimal page_size <> "&page=" <> decimal page

-- How a list is read: the field that holds it, if it is not the answer itself, and the field by
-- which its items are told apart.
pub record Listing : Type 0 where
  pub endpoint : String
  pub array_field : Option String
  pub governance : Bool
  pub identity_field : Option String

-- The rounds that are left, and the number of the page.
unfoldable pub read_pages : ℕ → ℕ → Listing → Rows → Session (List Object)
unfolding api page_values add_item page_path
read_pages zero page l s = fail ("GitHub GET pagination exceeds the page limit for " <> l.endpoint)
read_pages (suc rounds) page l s = do
  response ← api (page_path l.endpoint page) false l.governance
  values ← lift (page_values l.endpoint l.array_field response)
  s' ← lift (fold (add_item l.endpoint l.identity_field) s values)
  let rest : Session (List Object) = read_pages rounds (page + 1) l s'
  let all : Session (List Object) = pure s'.rows
  λ w n. if ltb (length values) page_size then all w n else rest w n

unfoldable pub paginated : Listing → Session (List Object)
unfolding read_pages
paginated l = read_pages max_pages 1 l (record { rows = []; identities = [] })

-- The list at an endpoint with no more said.
abbrev pub plain : String → Listing
plain endpoint = record {
  endpoint = endpoint;
  array_field = none;
  governance = false;
  identity_field = some "id";
}
