-- ===== src/Http/Static.antt =====
-- packages/hub-core/src/static.ts: the files of the web UI. The bodies of error responses and the header
-- `x-content-type-options` are left out.
use Prim.Native.Char.{code}
use pdatahub.Http.Paths.{includes, ends_with}
use pdatahub.Prelude.{
  String, [], none, some, true, false, Bool, Option, List, lookup, if◌then◌else◌, ℕ, str_eq, ◌==◌,
  ◌∷◌, ◌||◌, str_append, not, starts_with,
}

-- What the code calls of node:path and node:fs, and `toLowerCase`.
pub record FileSystem : Type 0 where
  pub resolve_root : String → String
  pub resolve : String → String → String
  pub join : String → String → String
  pub sep : String
  pub exists : String → Bool
  pub is_file : String → Bool
  pub read : String → List ℕ
  pub lower_case : String → String

-- `isApiPath`
unfoldable pub is_api_path : String → Bool
is_api_path pathname =
    str_eq pathname "/health" || str_eq pathname "/approval-stream" || starts_with pathname "/v1/"

-- The text from the last dot on.
unfoldable pub extension : String → Option String
extension String.[] = none
extension (String.◌∷◌ c s) =
    let rest = extension s in
    elim rest [ some e ↦ some e | none ↦ if code c == b'.' then some (String.◌∷◌ c s) else none ]

abbrev pub mime_types : List (String × String)
mime_types =
    (".html", "text/html; charset=utf-8")
    ∷ (".js", "text/javascript; charset=utf-8")
    ∷ (".mjs", "text/javascript; charset=utf-8")
    ∷ (".css", "text/css; charset=utf-8")
    ∷ (".json", "application/json; charset=utf-8")
    ∷ (".svg", "image/svg+xml")
    ∷ (".png", "image/png")
    ∷ (".jpg", "image/jpeg")
    ∷ (".jpeg", "image/jpeg")
    ∷ (".gif", "image/gif")
    ∷ (".webp", "image/webp")
    ∷ (".ico", "image/x-icon")
    ∷ (".woff", "font/woff")
    ∷ (".woff2", "font/woff2")
    ∷ (".ttf", "font/ttf")
    ∷ (".txt", "text/plain; charset=utf-8")
    ∷ (".map", "application/json; charset=utf-8")
    ∷ []

-- `getMimeType`
unfoldable pub get_mime_type : (String → String) → String → String
get_mime_type lower_case path = elim (extension path) [
  | none ↦ "application/octet-stream"
  | some e ↦ elim (lookup (lower_case e) mime_types) [
    | none ↦ "application/octet-stream"
    | some t ↦ t
  ]
]

-- `cacheControlFor`
unfoldable pub cache_control_for : String → String
cache_control_for path =
    if includes path "/_app/"
    then "public, max-age=31536000, immutable"
    else if ends_with path "index.html" || ends_with path "200.html"
    then "no-cache"
    else "public, max-age=3600, must-revalidate"

pub record File : Type 0 where
  pub target : String
  pub content_type : String
  pub cache_control : String
  pub content : List ℕ

-- What `serveStatic` does with a request: it passes it on, answers an error, or sends a file.
pub data StaticReply : Type 0 where
  passed_on : StaticReply
  rejected : ℕ → StaticReply
  served : File → StaticReply

module _ (fs : FileSystem) where
  -- `resolveSafePath`
  unfoldable pub resolve_safe_path : String → String → Option String
  resolve_safe_path web_root pathname =
      let root = fs.resolve_root web_root in
      let candidate = fs.resolve root (str_append "." pathname) in
      if includes pathname ".."
      then none
      else if str_eq candidate root || starts_with candidate (str_append root fs.sep)
      then some candidate
      else none

  unfoldable pub is_spa_route : String → Bool
  is_spa_route pathname = str_eq pathname "/" || not (includes pathname ".")

  unfoldable pub send_file : String → StaticReply
  send_file target = served (record {
    target = target;
    content_type = get_mime_type fs.lower_case target;
    cache_control = cache_control_for target;
    content = fs.read target;
  })

  unfoldable pub serve_target : Bool → String → StaticReply
  serve_target is_spa target =
      if not (fs.exists target)
      then (if is_spa then rejected 500 else rejected 404)
      else if not (fs.is_file target)
      then rejected 400
      else send_file target

  -- `serveStatic`
  unfoldable pub serve_static : String → String → StaticReply
  serve_static web_root pathname =
      if is_api_path pathname then passed_on else elim (resolve_safe_path web_root pathname) [
        | none ↦ rejected 403
        | some safe_path ↦
            if is_spa_route pathname
            then serve_target true (fs.join web_root "index.html")
            else serve_target false safe_path
      ]
