-- ===== src/Http/Pages.antt =====
-- control-panel/internal/httpapi/spa.go: the student's pages. path.Clean and the embedded files are
-- parameters.
use Prim.Native.String.{slice, len}
use text.Mathlib.Text.{starts_with}
use ldndrc.Base.{
  ◌≡◌, refl, inl, inr, arith, Bool-cases, String, Bool, true, ◌||◌, Option, none, some, str_eq,
  has_suffix, if◌then◌else◌,
}

-- The embedded files: whether Open finds a name, and whether io.Copy writes what it found
pub record Dist : Type 0 where
  pub opens : String → Bool
  pub copies : String → Bool

-- What is answered: a file with its Content-Type, if that is set, the error behind a failed copy, or
-- {"error": "ui not built"} under code 404.
pub data Page : Type 0 where
  file : String → Option String → Page
  broken not_built : Page

-- strings.TrimPrefix
unfoldable pub trim_prefix : String → String → String
trim_prefix s p = if starts_with s p then slice s (len p) (len s) else s

-- The name of the file that a path asks for
unfoldable pub page_name : (String → String) → String → String
page_name clean path =
    let name = trim_prefix (clean path) "/" in
    if str_eq name "" || str_eq name "." then "index.html" else name

unfoldable pub content_type : String → Option String
content_type name =
    if has_suffix name ".html"
    then some "text/html; charset=utf-8"
    else if has_suffix name ".js"
    then some "text/javascript; charset=utf-8"
    else if has_suffix name ".css"
    then some "text/css; charset=utf-8"
    else if has_suffix name ".json"
    then some "application/json"
    else if has_suffix name ".svg"
    then some "image/svg+xml"
    else none

-- The part behind Open
unfoldable pub send_file : Dist → String → Page
send_file dist name = if dist.copies name then file name (content_type name) else broken

-- SPAHandler; without a `dist` directory each path is answered alike.
unfoldable pub spa_handler : Option Dist → (String → String) → String → Page
spa_handler none clean path = not_built
spa_handler (some dist) clean path =
    let name = page_name clean path in
    if dist.opens name
    then send_file dist name
    else if dist.opens "index.html"
    then send_file dist "index.html"
    else not_built

-- If the index is embedded and copying works, every path is answered by an embedded file: by the one
-- that it names, if there is one, and by the index as HTML otherwise.
every_path_served :
    (dist : Dist) (clean : String → String) (path : String)
    → dist.opens "index.html" ≡ true
    → ((name : String) → dist.copies name ≡ true)
    → (name : String) × (spa_handler (some dist) clean path ≡ file name (content_type name))
      × (dist.opens name ≡ true)
      × (name ≡ (if dist.opens (page_name clean path) then page_name clean path else "index.html"))
      × (content_type "index.html" ≡ some "text/html; charset=utf-8")
unfolding spa_handler send_file content_type has_suffix
every_path_served dist clean path index copies =
    elim (Bool-cases (dist.opens (page_name clean path))) [
      | inl there ↦ (
        page_name clean path,
        ground (arith, there, copies (page_name clean path)),
        there,
        ground (arith, there),
        refl,
      )
      | inr gone ↦ (
        "index.html",
        ground (arith, gone, index, copies "index.html"),
        index,
        ground (arith, gone),
        refl,
      )
    ]
