-- ===== src/Endpoints.antt =====
-- clients/web/src/api/client.ts: the request of each method of ApiClient. A path is the list of its segments: those that are
-- written in the source, and those that are put in, which are identifiers without a slash or texts that are encoded as
-- components. What a caller passes for the body, data or a file, is of a type D.
pub mod Accounts
pub mod Servers
pub mod Chat
pub mod Community
pub mod Routes
pub mod Routing
pub mod Delivery
use together.Base.{
  ℕ, ◌⊎◌, inl, inr, String, Bool, true, false, Option, none, some, List, [], ◌∷◌, eqb, truthy,
  if◌then◌else◌,
}

pub data Method : Type 0 where
  get post patch put delete : Method

-- A parameter of the query; a number stands for its decimal text.
pub data Value : Type 0 where
  text : String → Value
  number : ℕ → Value

-- No body; `JSON.stringify(data)`; that of an object of texts; the fields of a form, each a text or a file.
pub data Body {ℓ} (D : Type ℓ) : Type ℓ where
  empty : Body D
  given : D → Body D
  object : List (String × String) → Body D
  form : List (String × (String ⊎ D)) → Body D

-- A segment of a template: written there, or put in.
pub data Part : Type 0 where
  fixed : String → Part
  value : String → Part

pub record Request {ℓ} (D : Type ℓ) : Type ℓ where
  pub method : Method
  pub path : List Part
  pub query : List (String × Value)
  pub body : Body D
  pub skip_refresh : Bool
  pub skip_content_type : Bool

module _ {ℓ} {D : Type ℓ} where
  abbrev pub ask : Method → List Part → Request D
  ask method path = record {
    method = method;
    path = path;
    query = [];
    body = empty;
    skip_refresh = false;
    skip_content_type = false;
  }

  -- `data ?? {}`
  abbrev pub or_empty : Option D → Body D
  or_empty none = object []
  or_empty (some payload) = given payload

  abbrev pub files_part : List D → List (String × (String ⊎ D))
  files_part [] = []
  files_part (file ∷ files) = ("files", inr file) ∷ files_part files

-- if (query?.key) params.set(key, query.key)
abbrev pub text_param : String → Option String → List (String × Value)
text_param key none = []
text_param key (some v) = if truthy (some v) then (key, text v) ∷ [] else []

abbrev pub number_param : String → Option ℕ → List (String × Value)
number_param key none = []
number_param key (some v) = if eqb v 0 then [] else (key, number v) ∷ []
