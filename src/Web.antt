-- ===== src/Web.antt =====
-- internal/web/web.go: the pages of the console. The embedded files are a parameter: the content
-- of a file, by its name below `static`.
pub mod Pages
mod Tests
use mathlib.Core.List.{reverse}
use easy_docker_proxy.Base.{
  ℕ, Bool, true, false, not, ◌&&◌, ◌||◌, List, [], ◌∷◌, ◌++◌, Option, none, some, if◌then◌else◌,
  any, Str, codes, is_empty, str_eq, has_suffix, drop, split, cut, ◌==◌,
}
use easy_docker_proxy.Http.{trim_prefix, status_ok, status_found, status_not_found}

-- The elements of a rooted path that `path.Clean` keeps, the last one first.
abbrev pub clean_onto : List Str → List Str → List Str
clean_onto done [] = done
clean_onto done (p ∷ ps) = elim (is_empty p || str_eq p (codes ".")) [
  | true ↦ clean_onto done ps
  | false ↦ elim (str_eq p (codes "..")) [
    | true ↦ clean_onto (parent done) ps
    | false ↦ clean_onto (p ∷ done) ps
  ]
]
  where
    parent : List Str → List Str
    parent [] = []
    parent (q ∷ qs) = qs

abbrev pub with_slashes : List Str → Str
with_slashes [] = []
with_slashes (p ∷ ps) = b'/' ∷ (p ++ with_slashes ps)

abbrev pub clean_parts : Str → List Str
clean_parts s = reverse (clean_onto [] (split b'/' s))

abbrev rooted : List Str → Str
rooted [] = codes "/"
rooted (p ∷ ps) = with_slashes (p ∷ ps)

-- `path.Clean("/" + s)`
unfoldable pub clean : Str → Str
clean s = rooted (clean_parts s)

-- `path.Ext`: from the last dot of the last element on.
unfoldable pub ext : Str → Str
ext name = by (cut b'.' (reverse name))
  where
    by : Str × Option Str → Str
    by (tail, none) = []
    by (tail, some front) = if any (λ c. c == b'/') tail then [] else b'.' ∷ reverse tail

unfoldable pub content_type : Str → Str
content_type name =
    if has_suffix name (codes ".html")
    then codes "text/html; charset=utf-8"
    else if has_suffix name (codes ".css")
    then codes "text/css; charset=utf-8"
    else if has_suffix name (codes ".js")
    then codes "application/javascript; charset=utf-8"
    else if has_suffix name (codes ".svg")
    then codes "image/svg+xml"
    else if has_suffix name (codes ".json")
    then codes "application/json"
    else if has_suffix name (codes ".png")
    then codes "image/png"
    else if has_suffix name (codes ".ico")
    then codes "image/x-icon"
    else codes "application/octet-stream"

pub data Page : Type 0 where
  page : Str → Str → Page
  redirect : Str → Page
  not_found : Page

abbrev pub index : Str
index = codes "index.html"

abbrev pub index_path : Str
index_path = codes "/stats/index.html"

-- `path.Join(name, "index.html")`, where `name` has been cleaned.
abbrev pub in_directory : Str → Str
in_directory name = drop 1 (clean (name ++ (b'/' ∷ index)))

-- The name of the file for a path.
unfoldable pub file_name : Str → Str
file_name path =
    let rel = clean (trim_prefix path (codes "/stats")) in
    let rel1 = if str_eq rel (codes "/") then b'/' ∷ index else rel in
    let name = trim_prefix rel1 (codes "/") in
    let name1 = if is_empty name || str_eq name (codes ".") then index else name in
    if has_suffix name1 (codes "/") then in_directory name1 else name1

abbrev missing : Str → Page
missing name =
    if is_empty (ext name) || str_eq (ext name) (codes ".html")
    then redirect index_path
    else not_found

abbrev pub found_page : Str → Option Str → Option Str → Page
found_page name (some text) second = page (content_type name) text
found_page name none (some text) = page (content_type (in_directory name)) text
found_page name none none = missing name

unfoldable pub serve_page : (Str → Option Str) → Str → Page
serve_page files path =
    let name = file_name path in found_page name (files name) (files (in_directory name))
